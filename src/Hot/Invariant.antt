-- ===== src/Hot/Invariant.antt =====
-- The map and the list of the cache, and what its operations make of them.
use seuss.Prelude.{
  ℕ, suc, ◌+◌, ◌≤◌, ◌-◌, ◌≡◌, ◌≢◌, subst, Bool, true, false, not, ◌&&◌, none, some, inl, inr, List,
  [], ◌∷◌, ◌++◌, arith, ◌==◌, nat_eq, ltb, is_some, if◌then◌else◌, Result, ok, panic, ◌>>=◌,
  >>=-eq-ok, Option-cases, Bool-cases,
}
use seuss.Table.{
  size, find, erase, assign, IsDistinct, find-cons, find-erase, erase-IsDistinct, size-erase,
  emplace_new,
}
use seuss.Hot.Defs.{
  HotCache, Signal, set_inactive, signal_yield, remove_first, get_hot_instance, save_hot_instance,
  within_reuse_limit, use_count,
}

-- How often a function is in the list.
abbrev pub queued : ℕ → List ℕ → ℕ
queued fid [] = 0
queued fid (f ∷ fs) = if f == fid then suc (queued fid fs) else queued fid fs

pub record IsHot (c : HotCache) : Type 0 where
  pub distinct : IsDistinct c.stalled_instance_map
  pub bounded : size c.stalled_instance_map ≤ c.hot_instance_limit
  pub listed :
      (fid : ℕ)
      → queued fid c.stalled_instance_fifo
        ≡ (if is_some (find fid c.stalled_instance_map) then 1 else 0)

-- The tests that an instance passes to be saved.
abbrev pub can_save : HotCache → ℕ → ℕ → Bool
can_save c fid id =
    ltb (size c.stalled_instance_map) c.hot_instance_limit
    && within_reuse_limit c (find id c.stalled_instance_usage_count)
    && not (is_some (find fid c.stalled_instance_map))

abbrev pub saved : HotCache → ℕ → ℕ → HotCache
saved c fid id = record c {
  stalled_instance_map = (fid, id) ∷ c.stalled_instance_map;
  stalled_instance_fifo = c.stalled_instance_fifo ++ fid ∷ [];
  stalled_instance_usage_count =
      assign id (use_count (find id c.stalled_instance_usage_count)) c.stalled_instance_usage_count;
}

module _ (known : ℕ → Bool) (c : HotCache) (fid id : ℕ) where
  -- For an instance that the manager knows, `save_hot_instance` never stops the machine: it saves and
  -- signals the instance when the tests pass, and changes nothing otherwise.
  pub save_hot_instance_lem :
      fid ≢ 0
      → id ≢ 0
      → known id ≡ true
      → save_hot_instance known c fid id
        ≡ ok (
            if can_save c fid id
            then (true, saved c fid id, set_inactive id ∷ signal_yield id ∷ [])
            else (false, c, []))
  unfolding save_hot_instance
  save_hot_instance_lem f i k = elim (Option-cases (find fid c.stalled_instance_map)) [
    | inl new ↦ ground (arith, emplace_new fid id c.stalled_instance_map new)
    | inr (old, e) ↦ ground arith
  ]

queued-append : (fid : ℕ) (fs gs : List ℕ) → queued fid (fs ++ gs) ≡ queued fid fs + queued fid gs
queued-append fid [] gs = omega arith
queued-append fid (f ∷ fs) gs = ground (arith, queued-append fid fs gs)

queued-remove_first :
    (fid g : ℕ) (fs : List ℕ)
    → queued g (remove_first fid fs) ≡ (if fid == g then queued g fs - 1 else queued g fs)
unfolding remove_first
queued-remove_first fid g [] = ground arith
queued-remove_first fid g (f ∷ fs) = ground (arith, queued-remove_first fid g fs)

saved-IsHot :
    (c : HotCache) (fid id : ℕ) → can_save c fid id ≡ true → IsHot c → IsHot (saved c fid id)
saved-IsHot c fid id h v = record {
  distinct = ground arith;
  bounded = ground arith;
  listed = λ g. ground (
    arith,
    v.listed g,
    v.listed fid,
    queued-append g c.stalled_instance_fifo (fid ∷ []),
    find-cons fid g id c.stalled_instance_map,
  );
}

unfoldable pub taken : HotCache → ℕ → HotCache
taken c fid = record c {
  stalled_instance_map = erase fid c.stalled_instance_map;
  stalled_instance_fifo = remove_first fid c.stalled_instance_fifo;
}

pub get_hot_instance_lem :
    (c : HotCache) (fid : ℕ) {id : ℕ}
    → find fid c.stalled_instance_map ≡ some id
    → get_hot_instance c fid ≡ ok (id, taken c fid)
unfolding get_hot_instance taken
get_hot_instance_lem c fid e = rw e

get_hot_instance-none :
    (c : HotCache) (fid : ℕ)
    → find fid c.stalled_instance_map ≡ none
    → get_hot_instance c fid ≡ panic
unfolding get_hot_instance
get_hot_instance-none c fid e = rw e

taken-IsHot :
    (c : HotCache) (fid id : ℕ)
    → find fid c.stalled_instance_map ≡ some id
    → IsHot c
    → IsHot (taken c fid)
unfolding taken
taken-IsHot c fid id e v = record {
  distinct = erase-IsDistinct fid c.stalled_instance_map v.distinct;
  bounded = omega (arith, v.bounded, size-erase fid id c.stalled_instance_map v.distinct e);
  listed = λ g. ground (
    arith,
    v.listed g,
    queued-remove_first fid g c.stalled_instance_fifo,
    find-erase fid g c.stalled_instance_map,
  );
}

pub save_hot_instance-saved :
    (known : ℕ → Bool) (c c' : HotCache) (fid id : ℕ) (flag : Bool) (signals : List Signal)
    → save_hot_instance known c fid id ≡ ok (flag, c', signals)
    → (flag ≡ can_save c fid id) × (c' ≡ (if can_save c fid id then saved c fid id else c))
unfolding save_hot_instance
save_hot_instance-saved known c c' fid id flag signals e =
    elim (Option-cases (find fid c.stalled_instance_map)) [
      | inl new ↦ ground (arith, emplace_new fid id c.stalled_instance_map new)
      | inr (old, found) ↦ ground arith
    ]

save_hot_instance-IsHot :
    (known : ℕ → Bool) (c c' : HotCache) (fid id : ℕ) (flag : Bool) (signals : List Signal)
    → IsHot c
    → save_hot_instance known c fid id ≡ ok (flag, c', signals)
    → IsHot c'
save_hot_instance-IsHot known c c' fid id flag signals v e =
    let (f, same) = save_hot_instance-saved known c c' fid id flag signals e in
    elim (Bool-cases (can_save c fid id)) [
      | inl yes_it_can ↦
          subst IsHot {x = saved c fid id} (ground arith) (saved-IsHot c fid id yes_it_can v)
      | inr it_cannot ↦ subst IsHot {x = c} (ground arith) v
    ]

get_hot_instance-IsHot :
    (c c' : HotCache) (fid id : ℕ) → IsHot c → get_hot_instance c fid ≡ ok (id, c') → IsHot c'
get_hot_instance-IsHot c c' fid id v e = elim (Option-cases (find fid c.stalled_instance_map)) [
  | inl missing ↦ cc (get_hot_instance-none c fid missing)
  | inr (found, at) ↦
      subst IsHot {x = taken c fid} (ground (arith, get_hot_instance_lem c fid at))
        (taken-IsHot c fid found at v)
]

-- The calls on one core's cache, in the order in which its events make them.
pub data Call : Type 0 where
  save : (fid id : ℕ) → Call
  get : (fid : ℕ) → Call

unfoldable pub run : (known : ℕ → Bool) → HotCache → List Call → Result HotCache
run known c [] = ok c
run known c (save fid id ∷ cs) = do
  (flag, c', signals) ← save_hot_instance known c fid id
  run known c' cs
run known c (get fid ∷ cs) = do (id, c') ← get_hot_instance c fid; run known c' cs

-- Whatever the calls, the list has each cached function exactly once and no other, and no more than
-- the limit are cached.
pub run-IsHot :
    (known : ℕ → Bool) (c c' : HotCache) (cs : List Call)
    → IsHot c
    → run known c cs ≡ ok c'
    → IsHot c'
unfolding run
run-IsHot known c c' [] v e = subst IsHot {x = c} (ground arith) v
run-IsHot known c c' (save fid id ∷ cs) v e =
    let ((flag, c₁, signals), done, rest) = >>=-eq-ok (save_hot_instance known c fid id) _ e in
    run-IsHot known c₁ c' cs (save_hot_instance-IsHot known c c₁ fid id flag signals v done) rest
run-IsHot known c c' (get fid ∷ cs) v e =
    let ((id, c₁), done, rest) = >>=-eq-ok (get_hot_instance c fid) _ e in
    run-IsHot known c₁ c' cs (get_hot_instance-IsHot c c₁ fid id v done) rest
