-- ===== src/Dsys/Order.antt =====
-- The order of `std::string`, and lists of texts by it.
use seuss.Prelude.{
  ◌≡◌, refl, Bool, true, false, ◌&&◌, ◌||◌, List, [], ◌∷◌, arith, nat_eq, ◌==◌, ltb, Bytes,
  bytes_eq, bytes_beq_iff,
}

-- `a < b`
unfoldable pub less : Bytes → Bytes → Bool
less a [] = false
less [] (y ∷ b) = true
less (x ∷ a) (y ∷ b) = ltb x y || x == y && less a b

pub less_irrefl : (a : Bytes) → less a a ≡ false
unfolding less
less_irrefl [] = refl
less_irrefl (x ∷ a) = ground (arith, less_irrefl a)

pub less_trans : (a b c : Bytes) → less a b ≡ true → less b c ≡ true → less a c ≡ true
unfolding less
less_trans a b [] ab bc = bc
less_trans a [] (z ∷ c) ab bc = ground (arith, ab)
less_trans [] (y ∷ b) (z ∷ c) ab bc = refl
less_trans (x ∷ a) (y ∷ b) (z ∷ c) ab bc = ground (arith, ab, bc, less_trans a b c)

pub eq_of_not_less : (a b : Bytes) → less a b ≡ false → less b a ≡ false → a ≡ b
unfolding less
eq_of_not_less [] [] ab ba = refl
eq_of_not_less [] (y ∷ b) ab ba = ground (arith, ab)
eq_of_not_less (x ∷ a) [] ab ba = ground (arith, ba)
eq_of_not_less (x ∷ a) (y ∷ b) ab ba = ground (arith, ab, ba, eq_of_not_less a b)

-- Whether a text is in a list.
unfoldable pub mem : Bytes → List Bytes → Bool
mem m [] = false
mem m (x ∷ xs) = m == x || mem m xs

-- Every text of the list is above.
abbrev pub IsBelow : Bytes → List Bytes → Type 0
IsBelow a [] = Unit {0}
IsBelow a (x ∷ xs) = (less a x ≡ true) × IsBelow a xs

-- Sorted, and no text twice.
abbrev pub IsAscending : List Bytes → Type 0
IsAscending [] = Unit {0}
IsAscending (x ∷ xs) = IsBelow x xs × IsAscending xs

pub IsBelow-trans : (a b : Bytes) (xs : List Bytes) → less a b ≡ true → IsBelow b xs → IsBelow a xs
IsBelow-trans a b [] ab below = tt
IsBelow-trans a b (x ∷ xs) ab below = (less_trans a b x ab below.0, IsBelow-trans a b xs ab below.1)

-- A text below a list is not in it.
pub mem-IsBelow : (a : Bytes) (xs : List Bytes) → IsBelow a xs → mem a xs ≡ false
unfolding mem
mem-IsBelow a [] below = refl
mem-IsBelow a (x ∷ xs) below =
    ground (arith, bytes_beq_iff a x, less_irrefl a, mem-IsBelow a xs below.1)
