-- ===== src/Text/Numbers.antt =====
-- `atoi` and the numbers that `std::to_string` prints.
use seuss.Prelude.{
  ℕ, zero, suc, ◌+◌, ◌-◌, ◌*◌, ◌/◌, ◌%◌, ◌^◌, ◌≤◌, ◌<◌, ◌≡◌, refl, ap, sym, ◌∙◌, Bool, false, ◌&&◌,
  ◌||◌, none, [], ◌∷◌, arith, Bool-cases, inl, inr, nat_eq, ◌==◌, ltb, leb, if◌then◌else◌, Bytes,
  find_first_of, Result, ok, panic,
}
use seuss.Prelude.Int.{ℤ, pos, negsuc}
use seuss.Prelude.Decimal.{to_string, print}

unfoldable pub is_digit : ℕ → Bool
is_digit c = leb 48 c && leb c 57

unfoldable pub is_space : ℕ → Bool
is_space c = c == 32 || leb 9 c && leb c 13

unfoldable pub skip_spaces : Bytes → Bytes
unfolding is_space
skip_spaces [] = []
skip_spaces (c ∷ text) = if is_space c then skip_spaces text else c ∷ text

-- The decimal digits at the front, after `acc`.
unfoldable pub scan : (acc : ℕ) → Bytes → ℕ
unfolding is_digit
scan acc [] = acc
scan acc (c ∷ text) = if is_digit c then scan (acc * 10 + (c - 48)) text else acc

-- The number with its sign.
unfoldable pub signed : Bytes → ℤ
unfolding scan
signed [] = pos 0
signed (c ∷ text) =
    if c == b'-'
    then (if scan 0 text == 0 then pos 0 else negsuc (scan 0 text - 1))
    else if c == b'+'
    then pos (scan 0 text)
    else pos (scan 0 (c ∷ text))

unfoldable pub is_int : ℤ → Bool
is_int (pos n) = ltb n (2 ^ 31)
is_int (negsuc n) = ltb n (2 ^ 31)

-- `atoi`. Its result is undefined where the number is no `int`.
unfoldable pub atoi : Bytes → Result ℤ
unfolding skip_spaces signed is_int
atoi text = let n = signed (skip_spaces text) in if is_int n then ok n else panic

-- An `int` as a `uint16_t`.
unfoldable pub to_uint16 : ℤ → ℕ
to_uint16 (pos n) = n % 65536
to_uint16 (negsuc n) = 65535 - n % 65536

scan-print : (fuel n : ℕ) (rest : Bytes) → n < fuel → scan 0 (print fuel n rest) ≡ scan n rest
unfolding print scan
scan-print zero n rest h = absurd (omega arith)
scan-print (suc fuel) n rest h = ground (arith, scan-print fuel (n / 10) ((48 + n % 10) ∷ rest))

-- What `to_string` prints starts with a digit, and holds nothing but digits.
print-head :
    (fuel n d : ℕ) (rest : Bytes)
    → 48 ≤ d
    → d ≤ 57
    → (e : ℕ) × (more : Bytes) × (print fuel n (d ∷ rest) ≡ e ∷ more) × (48 ≤ e) × (e ≤ 57)
unfolding print
print-head zero n d rest lo hi = (d, rest, refl, lo, hi)
print-head (suc fuel) n d rest lo hi = elim (Bool-cases (ltb n 10)) [
  | inl small ↦ (48 + n % 10, d ∷ rest, rw small, omega arith, omega arith)
  | inr big ↦ rw big (print-head fuel (n / 10) (48 + n % 10) (d ∷ rest) (omega arith) (omega arith))
]

pub to_string-head :
    (n : ℕ) → (e : ℕ) × (more : Bytes) × (to_string n ≡ e ∷ more) × (48 ≤ e) × (e ≤ 57)
unfolding to_string print
to_string-head n = elim (Bool-cases (ltb n 10)) [
  | inl small ↦ (48 + n % 10, [], rw small, omega arith, omega arith)
  | inr big ↦ rw big (print-head n (n / 10) (48 + n % 10) [] (omega arith) (omega arith))
]

print-lacks :
    (fuel n c : ℕ) (rest : Bytes)
    → is_digit c ≡ false
    → find_first_of c rest ≡ none
    → find_first_of c (print fuel n rest) ≡ none
unfolding print is_digit
print-lacks zero n c rest other lacks = lacks
print-lacks (suc fuel) n c rest other lacks =
    ground (arith, other, lacks, print-lacks fuel (n / 10) c ((48 + n % 10) ∷ rest))

pub to_string-lacks : (n c : ℕ) → is_digit c ≡ false → find_first_of c (to_string n) ≡ none
unfolding to_string
to_string-lacks n c other = print-lacks (suc n) n c [] other refl

pub scan-to_string : (n : ℕ) → scan 0 (to_string n) ≡ n
unfolding to_string scan
scan-to_string n = scan-print (suc n) n [] (omega arith)

-- A printed number is read back.
pub signed-to_string : (n : ℕ) → signed (skip_spaces (to_string n)) ≡ pos n
unfolding skip_spaces signed
signed-to_string n =
    let (e, more, same, lo, hi) = to_string-head n in
    let value : scan 0 (e ∷ more) ≡ n = ap (scan 0) (sym same) ∙ scan-to_string n in
    rw same (ground (arith, value))

pub atoi-to_string : (n : ℕ) → n < 2 ^ 31 → atoi (to_string n) ≡ ok (pos n)
unfolding atoi
atoi-to_string n h = rw (signed-to_string n) (ground (arith, h))
