-- ===== src/Dsys/Dotted.antt =====
-- The addresses that `get_member_ip` reads.
use seuss.Prelude.{
  ℕ, suc, ◌+◌, ◌<◌, ◌≡◌, refl, ap, ◌∙◌, append_assoc, none, some, List, [], ◌∷◌, ◌++◌, arith,
  nat_eq, Bytes, length, drop, length-append, drop-append_self, take-append_self, find_first_of, ok,
}
use seuss.Prelude.Decimal.{to_string}
use seuss.Text.Numbers.{is_digit, to_string-lacks, signed-to_string}
use seuss.Dsys.Address.{scan_byte, scan_parts, get_member_ip}

scan_byte-to_string : (n : ℕ) → n < 256 → scan_byte (to_string n) ≡ ok n
unfolding scan_byte
scan_byte-to_string n h = rw (signed-to_string n) (ground (arith, h))

find_dot :
    (text rest : Bytes)
    → find_first_of b'.' text ≡ none
    → find_first_of b'.' (text ++ b'.' ∷ rest) ≡ some (length text)
find_dot [] rest lacks = refl
find_dot (x ∷ text) rest lacks = ground (arith, lacks, find_dot text rest)

-- A number with a dot behind it.
abbrev pub dotted : (n : ℕ) (rest : Bytes) → Bytes
dotted n rest = to_string n ++ b'.' ∷ rest

-- One round of the loop, at such a number, and the last round, at a number alone.
scan_parts-dot :
    (left n : ℕ) (mid before rest : Bytes) {bytes : List ℕ}
    → n < 256
    → mid ≡ before ++ dotted n rest
    → scan_parts left (length (before ++ dotted n [])) mid ≡ ok bytes
    → scan_parts (suc left) (length before) mid ≡ ok (n ∷ bytes)
unfolding scan_parts is_digit
scan_parts-dot left n mid before rest h whole later =
    let text : drop (length before) mid ≡ dotted n rest =
      ap (drop (length before)) whole ∙ drop-append_self before (dotted n rest) in
    let behind : length before + length (to_string n) + 1 ≡ length (before ++ dotted n []) =
      omega (arith, length-append before (dotted n []), length-append (to_string n) (b'.' ∷ [])) in
    rw (
      text,
      find_dot (to_string n) rest (to_string-lacks n b'.' refl),
      take-append_self (to_string n) (b'.' ∷ rest),
      scan_byte-to_string n h,
      behind,
      later,
    )

scan_parts-last :
    (n : ℕ) (mid before : Bytes)
    → n < 256
    → mid ≡ before ++ to_string n
    → scan_parts 1 (length before) mid ≡ ok (n ∷ [])
unfolding scan_parts is_digit
scan_parts-last n mid before h whole =
    let text : drop (length before) mid ≡ to_string n =
      ap (drop (length before)) whole ∙ drop-append_self before (to_string n) in
    rw (text, to_string-lacks n b'.' refl, scan_byte-to_string n h)

-- A dotted address of four bytes is read as these bytes.
pub get_member_ip-dotted :
    (a b c d : ℕ)
    → a < 256
    → b < 256
    → c < 256
    → d < 256
    → get_member_ip (dotted a (dotted b (dotted c (to_string d)))) ≡ ok (a ∷ b ∷ c ∷ d ∷ [])
unfolding get_member_ip
get_member_ip-dotted a b c d ha hb hc hd =
    let mid = dotted a (dotted b (dotted c (to_string d))) in
    let first = dotted a [] in
    let second = first ++ dotted b [] in
    let third = second ++ dotted c [] in
    scan_parts-dot 3 a mid [] (dotted b (dotted c (to_string d))) ha refl (
      scan_parts-dot 2 b mid first (dotted c (to_string d)) hb (simp append_assoc) (
        scan_parts-dot 1 c mid second (to_string d) hc (simp append_assoc)
          (scan_parts-last d mid third hd (simp append_assoc))))

-- One round on a number with no dot behind it, from the front: the next round starts there again.
scan_parts-again :
    (left n : ℕ) {bytes : List ℕ}
    → n < 256
    → scan_parts left 0 (to_string n) ≡ ok bytes
    → scan_parts (suc left) 0 (to_string n) ≡ ok (n ∷ bytes)
unfolding scan_parts is_digit
scan_parts-again left n h later = rw (to_string-lacks n b'.' refl, scan_byte-to_string n h, later)

-- An id that is a number with no dot is no address, and yet is read as one, of four times this number.
pub get_member_ip-to_string :
    (n : ℕ) → n < 256 → get_member_ip (to_string n) ≡ ok (n ∷ n ∷ n ∷ n ∷ [])
unfolding get_member_ip
get_member_ip-to_string n h =
    scan_parts-again 3 n h
      (scan_parts-again 2 n h (scan_parts-again 1 n h (scan_parts-last n (to_string n) [] h refl)))
