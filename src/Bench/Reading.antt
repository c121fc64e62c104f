-- ===== src/Bench/Reading.antt =====
-- The constructor of `bench` on four printed numbers.
use seuss.Prelude.{
  ℕ, ◌<◌, ◌^◌, ◌≡◌, refl, ap, sym, ◌∙◌, append_assoc, append-nil, true, false, none, some, [], ◌∷◌,
  ◌++◌, Bytes, arith, nat_eq, find_first_of, is_empty,
}
use seuss.Prelude.Int.{pos}
use seuss.Prelude.Decimal.{to_string}
use seuss.Text.Numbers.{
  is_digit, is_int, skip_spaces, to_string-head, to_string-lacks, signed-to_string,
}
use seuss.Bench.Defs.{
  split, starts_number, stoi, all_stoi, str_to_int_vec, Bench, with_ints, or_stopped, defaults,
  bench,
}

split-append :
    (d : ℕ) (text part rest : Bytes)
    → find_first_of d text ≡ none
    → split d part (text ++ d ∷ rest) ≡ (part ++ text) ∷ split d [] rest
unfolding split
split-append d [] part rest lacks = ground (arith, append-nil part)
split-append d (c ∷ text) part rest lacks =
    ground
      (arith, lacks, split-append d text (part ++ c ∷ []) rest, append_assoc part (c ∷ []) text)

split_last :
    (d : ℕ) (text part : Bytes)
    → find_first_of d text ≡ none
    → is_empty (part ++ text) ≡ false
    → split d part text ≡ (part ++ text) ∷ []
unfolding split
split_last d [] [] lacks some_part = cc some_part
split_last d [] (p ∷ part) lacks some_part = ap (λ t. (p ∷ t) ∷ []) (sym (append-nil part))
split_last d (c ∷ text) part lacks some_part =
    ground
      (arith, lacks, split_last d text (part ++ c ∷ []), append_assoc part (c ∷ []) text, some_part)

starts_number_digit : (e : ℕ) (more : Bytes) → is_digit e ≡ true → starts_number (e ∷ more) ≡ true
unfolding starts_number
starts_number_digit e [] digit = digit
starts_number_digit e (d ∷ more) digit = rw digit refl

starts_number-to_string : (n : ℕ) → starts_number (skip_spaces (to_string n)) ≡ true
unfolding starts_number skip_spaces is_digit
starts_number-to_string n =
    let (e, more, same, lo, hi) = to_string-head n in
    rw same (ground (arith, starts_number_digit e more))

stoi-to_string : (n : ℕ) → n < 2 ^ 31 → stoi (to_string n) ≡ some (pos n)
unfolding stoi is_int
stoi-to_string n h = rw (starts_number-to_string n, signed-to_string n) (ground (arith, h))

-- The four numbers of a line, as they are typed.
abbrev pub typed : (runs fns parallel sleep : ℕ) → Bytes
typed runs fns parallel sleep =
    to_string runs
    ++ (b' ' ∷ (to_string fns ++ (b' ' ∷ (to_string parallel ++ (b' ' ∷ to_string sleep)))))

abbrev pub numbers : (runs fns parallel sleep : ℕ) → Bench
numbers runs fns parallel sleep = record {
  runs = pos runs;
  fns = pos fns;
  parallel = pos parallel;
  sleep = pos sleep;
  ints = pos runs ∷ pos fns ∷ pos parallel ∷ pos sleep ∷ [];
}

split-to_string :
    (n : ℕ) (rest : Bytes)
    → split b' ' [] (to_string n ++ b' ' ∷ rest) ≡ to_string n ∷ split b' ' [] rest
unfolding is_digit
split-to_string n rest = split-append b' ' (to_string n) [] rest (to_string-lacks n b' ' refl)

split_single : (n : ℕ) → split b' ' [] (to_string n) ≡ to_string n ∷ []
unfolding is_digit
split_single n =
    let (e, more, same, lo, hi) = to_string-head n in
    split_last b' ' (to_string n) [] (to_string-lacks n b' ' refl) (rw same refl)

all_stoi-typed :
    (runs fns parallel sleep : ℕ)
    → runs < 2 ^ 31
    → fns < 2 ^ 31
    → parallel < 2 ^ 31
    → sleep < 2 ^ 31
    → all_stoi (to_string runs ∷ to_string fns ∷ to_string parallel ∷ to_string sleep ∷ [])
      ≡ some (pos runs ∷ pos fns ∷ pos parallel ∷ pos sleep ∷ [])
unfolding all_stoi
all_stoi-typed runs fns parallel sleep h₁ h₂ h₃ h₄ = ground (
  arith,
  stoi-to_string runs h₁,
  stoi-to_string fns h₂,
  stoi-to_string parallel h₃,
  stoi-to_string sleep h₄,
)

pub bench-typed :
    (runs fns parallel sleep : ℕ)
    → runs < 2 ^ 31
    → fns < 2 ^ 31
    → parallel < 2 ^ 31
    → sleep < 2 ^ 31
    → bench (typed runs fns parallel sleep) ≡ numbers runs fns parallel sleep
unfolding bench str_to_int_vec or_stopped with_ints defaults all_stoi
bench-typed runs fns parallel sleep h₁ h₂ h₃ h₄ =
    let toks : split b' ' [] (typed runs fns parallel sleep)
        ≡ to_string runs ∷ to_string fns ∷ to_string parallel ∷ to_string sleep ∷ [] =
      rw
        (
          split-to_string runs _,
          split-to_string fns _,
          split-to_string parallel _,
          split_single sleep,
        )
        refl in
    ap (λ t. or_stopped (all_stoi t) defaults) toks
    ∙ ap (λ o. or_stopped o defaults) (all_stoi-typed runs fns parallel sleep h₁ h₂ h₃ h₄)
