-- ===== src/Table.antt =====
-- `std::unordered_map`: the operations that the program calls, over an association list. The program
-- never walks a map, so the order of the entries is not observed.
use seuss.Prelude.{
  ℕ, suc, ◌≡◌, refl, Bool, true, false, Option, none, some, List, [], ◌∷◌, arith, length, Eq, ◌==◌,
  if◌then◌else◌, is_some, beq_self,
}

abbrev pub Table {ℓ κ} : Type ℓ → Type κ → Type (ℓ ⊔ κ)
Table K V = List (K × V)

module _ {ℓ κ} {K : Type ℓ} {V : Type κ} where
  abbrev pub size : Table K V → ℕ
  size = length

module _ {ℓ κ} {K : Type ℓ} {V : Type κ} ⦃e : Eq K⦄ where
  -- `it = m.find(k)`; `none` is `m.end()`.
  unfoldable pub find : K → Table K V → Option V
  find k [] = none
  find k ((j, v) ∷ m) = if j == k then some v else find k m

  -- `m.erase(k)`
  unfoldable pub erase : K → Table K V → Table K V
  erase k [] = []
  erase k ((j, v) ∷ m) = let rest = erase k m in if j == k then rest else (j, v) ∷ rest

  -- `m.emplace(k, v)`: an entry that is there stays, and the flag says whether one was added.
  unfoldable pub emplace : K → V → Table K V → Table K V × Bool
  unfolding find
  emplace k v m = if is_some (find k m) then (m, false) else ((k, v) ∷ m, true)

  -- `m[k] = v`
  unfoldable pub assign : K → V → Table K V → Table K V
  unfolding erase
  assign k v m = (k, v) ∷ erase k m

  -- No two entries share a key.
  abbrev pub IsDistinct : Table K V → Type κ
  IsDistinct [] = Unit
  IsDistinct ((k, v) ∷ m) = (find k m ≡ none) × IsDistinct m

  pub find-erase :
      (k j : K) (m : Table K V) → find j (erase k m) ≡ (if k == j then none else find j m)
  unfolding find erase
  find-erase k j [] = ground arith
  find-erase k j ((i, v) ∷ m) =
      ground (arith, find-erase k j m, e.beq_iff i k, e.beq_iff i j, e.beq_iff k j)

  pub find-cons :
      (k j : K) (v : V) (m : Table K V)
      → find j ((k, v) ∷ m) ≡ (if k == j then some v else find j m)
  unfolding find
  find-cons k j v m = refl

  pub erase-cons :
      (k j : K) (v : V) (m : Table K V)
      → erase j ((k, v) ∷ m) ≡ (if k == j then erase j m else (k, v) ∷ erase j m)
  unfolding erase
  erase-cons k j v m = refl

  pub find-assign :
      (k j : K) (v : V) (m : Table K V)
      → find j (assign k v m) ≡ (if k == j then some v else find j m)
  unfolding assign find
  find-assign k j v m = ground (arith, find-erase k j m)

  pub emplace_new :
      (k : K) (v : V) (m : Table K V) → find k m ≡ none → emplace k v m ≡ ((k, v) ∷ m, true)
  unfolding emplace
  emplace_new k v m h = ground arith

  pub emplace_old :
      (k : K) (v w : V) (m : Table K V) → find k m ≡ some w → emplace k v m ≡ (m, false)
  unfolding emplace
  emplace_old k v w m h = ground arith

  -- A new entry leaves the others alone.
  pub find-emplace :
      (k j : K) (v w : V) (m : Table K V) → find j m ≡ some w → find j (emplace k v m).0 ≡ some w
  unfolding emplace find
  find-emplace k j v w m at = ground (arith, at, e.beq_iff k j)

  pub erase_absent : (k : K) (m : Table K V) → find k m ≡ none → erase k m ≡ m
  unfolding find erase
  erase_absent k [] h = refl
  erase_absent k ((j, v) ∷ m) h = ground (arith, erase_absent k m)

  pub erase-IsDistinct : (k : K) (m : Table K V) → IsDistinct m → IsDistinct (erase k m)
  unfolding erase
  erase-IsDistinct k [] h = tt
  erase-IsDistinct k ((j, v) ∷ m) h = ground (arith, erase-IsDistinct k m, find-erase k j m)

  pub assign-IsDistinct : (k : K) (v : V) (m : Table K V) → IsDistinct m → IsDistinct (assign k v m)
  unfolding assign
  assign-IsDistinct k v m h = ground (arith, erase-IsDistinct k m, find-erase k k m, beq_self k)

  pub size-erase :
      (k : K) (v : V) (m : Table K V)
      → IsDistinct m
      → find k m ≡ some v
      → size m ≡ suc (size (erase k m))
  unfolding find erase
  size-erase k v [] d h = ground arith
  size-erase k v ((j, w) ∷ m) d h =
      ground (arith, size-erase k v m, erase_absent k m, e.beq_iff j k)
