-- ===== src/Root/Snapshots.antt =====
-- The snapshot cache: its bound, what a lookup finds, and who owns a captured snapshot.
use seuss.Prelude.{
  ℕ, suc, ◌+◌, ◌≤◌, ◌≡◌, refl, Bool, true, false, not, ◌&&◌, some, inl, inr, List, [], ◌∷◌, ◌++◌,
  arith, ◌==◌, nat_eq, is_some, if◌then◌else◌, Result, ok, ◌>>=◌, >>=-eq-ok, Option-cases,
}
use seuss.Table.{size, find, IsDistinct, find-cons, emplace_new}
use seuss.Root.Defs.{InvokerRoot, default_snapmap_limit, cache_is_full, get_snapshot, set_snapshot}

-- The cache has one snapshot for a function, and never more than its limit.
pub record IsCached (r : InvokerRoot) : Type 0 where
  pub bootstrapped : r.is_bootstrapped ≡ true
  pub distinct : IsDistinct r.snapmap
  pub bounded : size r.snapmap ≤ default_snapmap_limit

abbrev pub fits : InvokerRoot → ℕ → Bool
fits r fid = not (is_some (find fid r.snapmap)) && not (cache_is_full r)

abbrev pub stored : InvokerRoot → ℕ → ℕ → InvokerRoot
stored r fid sv = record r { snapmap = (fid, sv) ∷ r.snapmap }

-- `SetSnapshot` on every branch.
pub set_snapshot_lem :
    (r : InvokerRoot) (fid sv : ℕ)
    → r.is_bootstrapped ≡ true
    → set_snapshot r fid sv
      ≡ ok (if fits r fid then (stored r fid sv, true, []) else (r, false, sv ∷ []))
unfolding set_snapshot cache_is_full
set_snapshot_lem r fid sv b = elim (Option-cases (find fid r.snapmap)) [
  | inl new ↦ ground (arith, emplace_new fid sv r.snapmap new)
  | inr (hit, old) ↦ ground arith
]

-- Saving a snapshot keeps the cache well formed.
set_snapshot-IsCached :
    (r r' : InvokerRoot) (fid sv : ℕ) (saved : Bool) (deleted : List ℕ)
    → IsCached r
    → set_snapshot r fid sv ≡ ok (r', saved, deleted)
    → IsCached r'
unfolding cache_is_full
set_snapshot-IsCached r r' fid sv saved deleted v e =
    ground (arith, set_snapshot_lem r fid sv v.bootstrapped)

set_snapshot_runs :
    (r : InvokerRoot) (fid sv : ℕ)
    → IsCached r
    → (x : InvokerRoot × Bool × List ℕ) × (set_snapshot r fid sv ≡ ok x)
set_snapshot_runs r fid sv v = (_, set_snapshot_lem r fid sv v.bootstrapped)

-- The snapshots that cold starts capture, one after the other: each is offered to the cache for its
-- function. The result has the snapshots that were deleted.
unfoldable pub capture : InvokerRoot → List (ℕ × ℕ) → Result (InvokerRoot × List ℕ)
capture r [] = ok (r, [])
capture r ((fid, sv) ∷ svs) = do
  (r', saved, deleted) ← set_snapshot r fid sv
  (r'', more) ← capture r' svs
  ok (r'', deleted ++ more)

module _ (a : ℕ) where
  -- How often the snapshot `a` is in a list, or in a cache.
  abbrev pub copies : List ℕ → ℕ
  copies [] = 0
  copies (x ∷ xs) = if x == a then suc (copies xs) else copies xs

  abbrev pub copies_held : List (ℕ × ℕ) → ℕ
  copies_held [] = 0
  copies_held ((fid, sv) ∷ m) = if sv == a then suc (copies_held m) else copies_held m

  copies-append : (xs ys : List ℕ) → copies (xs ++ ys) ≡ copies xs + copies ys
  copies-append [] ys = omega arith
  copies-append (x ∷ xs) ys = ground (arith, copies-append xs ys)

  set_snapshot-owns :
      (r r' : InvokerRoot) (fid sv : ℕ) (saved : Bool) (deleted : List ℕ)
      → IsCached r
      → set_snapshot r fid sv ≡ ok (r', saved, deleted)
      → copies_held r'.snapmap + copies deleted ≡ copies_held ((fid, sv) ∷ r.snapmap)
  set_snapshot-owns r r' fid sv saved deleted v e =
      ground (arith, set_snapshot_lem r fid sv v.bootstrapped)

  -- Every captured snapshot is either in the cache or deleted, once; none is lost, and none that the
  -- cache holds is deleted.
  pub capture-owns :
      (r r' : InvokerRoot) (svs : List (ℕ × ℕ)) (deleted : List ℕ)
      → IsCached r
      → capture r svs ≡ ok (r', deleted)
      → copies_held r'.snapmap + copies deleted ≡ copies_held r.snapmap + copies_held svs
  unfolding capture
  capture-owns r r' [] deleted v e = ground arith
  capture-owns r r' ((fid, sv) ∷ svs) deleted v e =
      let ((r₁, saved, d), done, rest) = >>=-eq-ok (set_snapshot r fid sv) _ e in
      let ((r₂, more), ran, last) = >>=-eq-ok (capture r₁ svs) _ rest in
      let v₁ = set_snapshot-IsCached r r₁ fid sv saved d v done in
      ground (
        arith,
        capture-owns r₁ r₂ svs more v₁ ran,
        set_snapshot-owns r r₁ fid sv saved d v done,
        copies-append d more,
        last,
      )

set_snapshot-find :
    (r r' : InvokerRoot) (f s fid sv : ℕ) (saved : Bool) (deleted : List ℕ)
    → IsCached r
    → set_snapshot r f s ≡ ok (r', saved, deleted)
    → get_snapshot r fid ≡ ok (some sv)
    → get_snapshot r' fid ≡ ok (some sv)
unfolding get_snapshot
set_snapshot-find r r' f s fid sv saved deleted v e h =
    ground (arith, set_snapshot_lem r f s v.bootstrapped, find-cons f fid s r.snapmap)

-- A snapshot that the cache once gives for a function is the one that it gives from then on.
pub capture-find :
    (r r' : InvokerRoot) (svs : List (ℕ × ℕ)) (deleted : List ℕ) (fid sv : ℕ)
    → IsCached r
    → capture r svs ≡ ok (r', deleted)
    → get_snapshot r fid ≡ ok (some sv)
    → get_snapshot r' fid ≡ ok (some sv)
unfolding capture
capture-find r r' [] deleted fid sv v e h = cc
capture-find r r' ((f, s) ∷ svs) deleted fid sv v e h =
    let ((r₁, saved, d), done, rest) = >>=-eq-ok (set_snapshot r f s) _ e in
    let ((r₂, more), ran, last) = >>=-eq-ok (capture r₁ svs) _ rest in
    let v₁ = set_snapshot-IsCached r r₁ f s saved d v done in
    let h₁ = set_snapshot-find r r₁ f s fid sv saved d v done h in
    ground (arith, capture-find r₁ r₂ svs more fid sv v₁ ran h₁, last)

-- On a booted node no sequence of captures stops the machine, and the cache stays within its limit,
-- with one snapshot for a function.
capture-total :
    (r : InvokerRoot) (svs : List (ℕ × ℕ))
    → IsCached r
    → (r' : InvokerRoot) × (deleted : List ℕ) × (capture r svs ≡ ok (r', deleted)) × IsCached r'
unfolding capture
capture-total r [] v = (r, [], refl, v)
capture-total r ((fid, sv) ∷ svs) v =
    let ((r₁, saved, d), done) = set_snapshot_runs r fid sv v in
    let v₁ = set_snapshot-IsCached r r₁ fid sv saved d v done in
    let (r₂, more, ran, v₂) = capture-total r₁ svs v₁ in
    (r₂, d ++ more, ground (arith, done, ran), v₂)
