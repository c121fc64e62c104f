-- ===== src/Bench/Defs.antt =====
-- `bench` and `genRevisionVec`.
use seuss.Prelude.{
  ℕ, zero, suc, ◌+◌, ◌*◌, ◌/◌, ◌%◌, Bool, true, false, not, ◌&&◌, ◌||◌, Option, none, some, List,
  [], ◌∷◌, ◌++◌, Bytes, length, replicate, nat_eq, ◌==◌, ltb, if◌then◌else◌, Result, ok, panic,
  ◌>>◌, kassert,
}
use seuss.Prelude.Int.{ℤ, pos, negsuc}
use seuss.Prelude.Decimal.{to_string}
use seuss.Text.Numbers.{is_digit, is_int, skip_spaces, signed}

-- `getline` until the text is used up: the parts between the delimiters, and none behind the last one.
unfoldable pub split : (delimiter : ℕ) (part : Bytes) → Bytes → List Bytes
split delimiter [] [] = []
split delimiter (p ∷ part) [] = (p ∷ part) ∷ []
split delimiter part (c ∷ text) = elim (c == delimiter) [
  | true ↦ part ∷ split delimiter [] text
  | false ↦ split delimiter (part ++ c ∷ []) text
]

unfoldable pub starts_number : Bytes → Bool
unfolding is_digit
starts_number [] = false
starts_number (c ∷ []) = is_digit c
starts_number (c ∷ d ∷ text) = is_digit c || (c == b'-' || c == b'+') && is_digit d

-- `stoi`; `none` is an exception.
unfoldable pub stoi : Bytes → Option ℤ
unfolding starts_number
stoi text =
    let number = skip_spaces text in
    if starts_number number && is_int (signed number) then some (signed number) else none

unfoldable pub all_stoi : List Bytes → Option (List ℤ)
all_stoi [] = some []
all_stoi (tok ∷ toks) = elim (stoi tok) [
  | none ↦ none
  | some n ↦ elim (all_stoi toks) [ none ↦ none | some ns ↦ some (n ∷ ns) ]
]

unfoldable pub str_to_int_vec : Bytes → (delimiter : ℕ) → Option (List ℤ)
unfolding split all_stoi
str_to_int_vec str delimiter = all_stoi (split delimiter [] str)

pub record Bench : Type 0 where
  pub runs : ℤ
  pub fns : ℤ
  pub parallel : ℤ
  pub sleep : ℤ
  pub ints : List ℤ

abbrev pub expected_size : ℕ
expected_size = 4

unfoldable pub defaults : Bench
defaults = record { runs = pos 1; fns = pos 1; parallel = pos 1; sleep = pos 0; ints = [] }

-- The first four numbers, as far as there are any.
unfoldable pub with_ints : List ℤ → Bench → Bench
with_ints [] b = record b { ints = [] }
with_ints (r ∷ []) b = record b { ints = r ∷ []; runs = r }
with_ints (r ∷ f ∷ []) b = record b { ints = r ∷ f ∷ []; runs = r; fns = f }
with_ints (r ∷ f ∷ p ∷ []) b = record b { ints = r ∷ f ∷ p ∷ []; runs = r; fns = f; parallel = p }
with_ints (r ∷ f ∷ p ∷ s ∷ more) b = record b {
  ints = r ∷ f ∷ p ∷ s ∷ more;
  runs = r;
  fns = f;
  parallel = p;
  sleep = s;
}

unfoldable pub or_stopped : Option (List ℤ) → Bench → Bench
unfolding with_ints
or_stopped none b = record b { runs = pos 0 }
or_stopped (some ints) b = with_ints ints b

-- The constructor. An error in the text leaves no runs.
unfoldable pub bench : Bytes → Bench
unfolding or_stopped str_to_int_vec defaults
bench str = or_stopped (str_to_int_vec str b' ') defaults

unfoldable pub is_zero : ℤ → Bool
is_zero (pos n) = n == 0
is_zero (negsuc n) = false

unfoldable pub vec_good : Bench → Bool
unfolding is_zero
vec_good b = if ltb expected_size (length b.ints) then false else not (is_zero b.runs)

-- A write out of bounds changes nothing here; it does not happen.
abbrev pub set {ℓ} : {A : Type ℓ} → List A → ℕ → A → List A
set [] i v = []
set (x ∷ xs) zero v = v ∷ xs
set (x ∷ xs) (suc i) v = x ∷ set xs i v

-- The inner loop, from `j` on, with `left` rounds to go.
unfoldable pub fill : (left base j : ℕ) (name : Bytes) → List Bytes → List Bytes
fill zero base j name ret = ret
fill (suc left) base j name ret = fill left base (j + 1) name (set ret (base + j) name)

-- The outer loop, from `i` on; `rand` gives the number that is drawn in each round.
unfoldable pub name_all : (left i repeats : ℕ) (rand : ℕ → ℕ) → List Bytes → List Bytes
unfolding fill
name_all zero i repeats rand ret = ret
name_all (suc left) i repeats rand ret =
    name_all left (i + 1) repeats rand (fill repeats (i * repeats) 0 (to_string (rand i)) ret)

-- `genRevisionVec` with its asserts. A vector cannot be made of a negative length, and a remainder by 0
-- stops the program; with a negative number of functions the loop makes no round.
unfoldable pub gen_revision_vec :
    (rand : ℕ → ℕ) (random_shuffle : List Bytes → List Bytes) → (runs fns : ℤ) → Result (List Bytes)
unfolding name_all
gen_revision_vec rand random_shuffle (negsuc r) fns = panic
gen_revision_vec rand random_shuffle (pos runs) (negsuc f) = do
  kassert (runs % (f + 1) == 0)
  ok (random_shuffle (replicate runs []))
gen_revision_vec rand random_shuffle (pos runs) (pos fns) = do
  kassert (not (fns == 0))
  kassert (runs % fns == 0)
  ok (random_shuffle (name_all fns 0 (runs / fns) rand (replicate runs [])))
