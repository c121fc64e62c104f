-- ===== src/Openwhisk/Numbers.antt =====
-- What `std::to_string` prints (src/openwhisk/msg.cc) as a number of JSON.
use seuss.Prelude.{
  ℕ, zero, suc, ◌+◌, ◌/◌, ◌%◌, ◌<◌, ◌≡◌, ◌≢◌, refl, true, Bool-cases, inl, inr, ltb, nat_eq, [],
  ◌∷◌, Bytes, arith,
}
use seuss.Prelude.Int.{ℤ, pos, negsuc, to_string_signed}
use seuss.Prelude.Decimal.{print, to_string}
use seuss.Openwhisk.Grammar.{
  start, signed, whole, next_in_number, reads_number, is_number, Value, number,
}

abbrev pub integer : ℤ → Value
integer n = number (to_string_signed n)

-- At the start of a number, and behind its sign.
abbrev IsNumber : Bytes → Type 0
IsNumber text = (reads_number start text ≡ true) × (reads_number signed text ≡ true)

digit_first :
    (d : ℕ) (text : Bytes)
    → d ≢ 0
    → d < 10
    → reads_number whole text ≡ true
    → IsNumber ((48 + d) ∷ text)
unfolding reads_number next_in_number
digit_first d text some small rest =
    (ground (arith, some, small, rest), ground (arith, some, small, rest))

digit_next :
    (d : ℕ) (text : Bytes)
    → d < 10
    → reads_number whole text ≡ true
    → reads_number whole ((48 + d) ∷ text) ≡ true
unfolding reads_number next_in_number
digit_next d text small rest = ground (arith, small, rest)

print-IsNumber :
    (fuel n : ℕ) (acc : Bytes)
    → n < fuel
    → n ≢ 0
    → reads_number whole acc ≡ true
    → IsNumber (print fuel n acc)
unfolding print
print-IsNumber zero n acc enough some rest = absurd (omega (arith, enough))
print-IsNumber (suc fuel) n acc enough some rest = elim (Bool-cases (ltb n 10)) [
  | inl small ↦ rw small (digit_first (n % 10) acc (ground (arith, small, some)) (omega arith) rest)
  | inr large ↦ rw large (
      print-IsNumber fuel (n / 10) ((48 + n % 10) ∷ acc) (ground (arith, enough, large))
        (ground (arith, large)) (digit_next (n % 10) acc (omega arith) rest))
]

to_string-IsNumber : (n : ℕ) → IsNumber (to_string n)
unfolding to_string reads_number next_in_number
to_string-IsNumber zero = (refl, refl)
to_string-IsNumber (suc n) =
    print-IsNumber (suc (suc n)) (suc n) [] (omega arith) (omega arith) refl

pub to_string_signed-is_number : (n : ℤ) → is_number (to_string_signed n) ≡ true
unfolding to_string_signed is_number
to_string_signed-is_number (pos n) = (to_string-IsNumber n).0
to_string_signed-is_number (negsuc n) = (to_string-IsNumber (n + 1)).1
