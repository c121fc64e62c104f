-- ===== src/Text/Search.antt =====
-- `std::string::find` and the cut of a text at what it finds.
use seuss.Prelude.{
  ℕ, suc, ◌≡◌, refl, Bool, true, false, ◌&&◌, Option, none, some, [], ◌∷◌, ◌++◌, arith, nat_eq,
  ◌==◌, if◌then◌else◌, Bytes, length, find_first_of,
}
use mathlib.Core.Option

unfoldable pub starts_with : (key text : Bytes) → Bool
starts_with [] text = true
starts_with (k ∷ key) [] = false
starts_with (k ∷ key) (x ∷ text) = k == x && starts_with key text

-- `text.find(key)`; `none` is `npos`.
unfoldable pub find_text : (key text : Bytes) → Option ℕ
unfolding starts_with
find_text key [] = if starts_with key [] then some 0 else none
find_text key (x ∷ text) =
    if starts_with key (x ∷ text) then some 0 else Option.map suc (find_text key text)

starts_with-append : (key rest : Bytes) → starts_with key (key ++ rest) ≡ true
unfolding starts_with
starts_with-append [] rest = refl
starts_with-append (k ∷ key) rest = ground (arith, starts_with-append key rest)

-- A key is not found in a text that lacks its first character, nor before its own occurrence.
pub find_text-lacks :
    (k : ℕ) (key text : Bytes) → find_first_of k text ≡ none → find_text (k ∷ key) text ≡ none
unfolding find_text
find_text-lacks k key [] lacks = refl
find_text-lacks k key (x ∷ text) lacks = ground (arith, lacks, find_text-lacks k key text)

pub find_text-append :
    (k : ℕ) (key text rest : Bytes)
    → find_first_of k text ≡ none
    → find_text (k ∷ key) (text ++ (k ∷ key ++ rest)) ≡ some (length text)
unfolding find_text
find_text-append k key [] rest lacks = ground (arith, starts_with-append key rest)
find_text-append k key (x ∷ text) rest lacks =
    ground (arith, lacks, find_text-append k key text rest)

pub find_first_of-append :
    (c : ℕ) (a b : Bytes)
    → find_first_of c a ≡ none
    → find_first_of c b ≡ none
    → find_first_of c (a ++ b) ≡ none
find_first_of-append c [] b ha hb = hb
find_first_of-append c (x ∷ a) b ha hb = ground (arith, ha, hb, find_first_of-append c a b)
