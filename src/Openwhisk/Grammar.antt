-- ===== src/Openwhisk/Grammar.antt =====
-- The texts of JSON (RFC 8259), blanks, fractions and escapes included: what a text that goes to OpenWhisk is
-- compared to.
use seuss.Prelude.{
  ℕ, zero, suc, ◌≡◌, Bool, true, false, not, ◌&&◌, ◌||◌, leb, nat_eq, ◌==◌, if◌then◌else◌, [], ◌∷◌,
  ◌++◌, Bytes, codes,
}

mutual
  pub data Value : Type 0 where
    null : Value
    boolean : Bool → Value
    number : (text : Bytes) → Value  -- as it is written
    string : (text : Bytes) → Value  -- what stands between the quotes
    object : Members → Value
    array : Elements → Value
    padded : (before : Bytes) → Value → (after : Bytes) → Value  -- blanks around a value

  pub data Members : Type 0 where
    no_member : (blanks : Bytes) → Members
    member : (before key after : Bytes) → Value → Members → Members

  pub data Elements : Type 0 where
    no_element : (blanks : Bytes) → Elements
    element : Value → Elements → Elements

abbrev pub separator : (first : Bool) → Bytes
separator first = if first then [] else codes ","

unfoldable mutual
  pub text_of : Value → Bytes
  text_of null = codes "null"
  text_of (boolean b) = if b then codes "true" else codes "false"
  text_of (number text) = text
  text_of (string text) = b'"' ∷ (text ++ codes "\"")
  text_of (object ms) = codes "{" ++ (text_of_members true ms ++ codes "}")
  text_of (array es) = codes "[" ++ (text_of_elements true es ++ codes "]")
  text_of (padded before v after) = before ++ (text_of v ++ after)

  pub text_of_members : (first : Bool) → Members → Bytes
  text_of_members first (no_member blanks) = blanks
  text_of_members first (member before key after v ms) =
      separator first
      ++ (before
          ++ (b'"'
              ∷ (key
                  ++ (b'"' ∷ (after ++ (codes ":" ++ (text_of v ++ text_of_members false ms)))))))

  pub text_of_elements : (first : Bool) → Elements → Bytes
  text_of_elements first (no_element blanks) = blanks
  text_of_elements first (element v es) =
      separator first ++ (text_of v ++ text_of_elements false es)

abbrev is_digit : ℕ → Bool
is_digit c = leb b'0' c && leb c b'9'

abbrev is_hex : ℕ → Bool
is_hex c = is_digit c || (leb b'A' c && leb c b'F') || (leb b'a' c && leb c b'f')

-- Where a reader of a string is: between two characters, behind a backslash, or before that many digits of
-- `\u` and one more.
pub data InString : Type 0 where
  between behind refused : InString
  digits : ℕ → InString

unfoldable next_in_string : InString → ℕ → InString
next_in_string between c =
    if c == b'\\' then behind else if leb 32 c && not (c == b'"') then between else refused
next_in_string behind c =
    if c == b'u'
    then digits 3
    else if c == b'"'
        || c == b'\\'
        || c == b'/'
        || c == b'b'
        || c == b'f'
        || c == b'n'
        || c == b'r'
        || c == b't'
    then between
    else refused
next_in_string (digits zero) c = if is_hex c then between else refused
next_in_string (digits (suc n)) c = if is_hex c then digits n else refused
next_in_string refused c = refused

unfoldable reads_string : InString → Bytes → Bool
unfolding next_in_string
reads_string between [] = true
reads_string behind [] = false
reads_string refused [] = false
reads_string (digits n) [] = false
reads_string s (c ∷ text) = reads_string (next_in_string s c) text

-- What may stand between the quotes of a string.
unfoldable pub is_string : Bytes → Bool
unfolding reads_string
is_string text = reads_string between text

-- Where a reader of a number is.
pub data InNumber : Type 0 where
  start signed leading whole point fraction exponent exponent_sign power wrong : InNumber

unfoldable pub next_in_number : InNumber → ℕ → InNumber
next_in_number start c =
    if c == b'-' then signed else if c == b'0' then leading else if is_digit c then whole else wrong
next_in_number signed c = if c == b'0' then leading else if is_digit c then whole else wrong
next_in_number leading c =
    if c == b'.' then point else if c == b'e' || c == b'E' then exponent else wrong
next_in_number whole c =
    if is_digit c
    then whole
    else if c == b'.'
    then point
    else if c == b'e' || c == b'E'
    then exponent
    else wrong
next_in_number point c = if is_digit c then fraction else wrong
next_in_number fraction c =
    if is_digit c then fraction else if c == b'e' || c == b'E' then exponent else wrong
next_in_number exponent c =
    if c == b'+' || c == b'-' then exponent_sign else if is_digit c then power else wrong
next_in_number exponent_sign c = if is_digit c then power else wrong
next_in_number power c = if is_digit c then power else wrong
next_in_number wrong c = wrong

unfoldable ends_number : InNumber → Bool
ends_number leading = true
ends_number whole = true
ends_number fraction = true
ends_number power = true
ends_number other = false

unfoldable pub reads_number : InNumber → Bytes → Bool
unfolding next_in_number ends_number
reads_number s [] = ends_number s
reads_number s (c ∷ text) = reads_number (next_in_number s c) text

unfoldable pub is_number : Bytes → Bool
unfolding reads_number
is_number text = reads_number start text

unfoldable pub is_blank : Bytes → Bool
is_blank [] = true
is_blank (c ∷ text) = (c == 32 || c == 9 || c == 10 || c == 13) && is_blank text

unfoldable mutual
  pub is_proper : Value → Bool
  is_proper null = true
  is_proper (boolean b) = true
  is_proper (number text) = is_number text
  is_proper (string text) = is_string text
  is_proper (object ms) = are_proper_members ms
  is_proper (array es) = are_proper es
  is_proper (padded before v after) = is_blank before && is_proper v && is_blank after

  pub are_proper_members : Members → Bool
  are_proper_members (no_member blanks) = is_blank blanks
  are_proper_members (member before key after v ms) =
      is_blank before && is_string key && is_blank after && is_proper v && are_proper_members ms

  pub are_proper : Elements → Bool
  are_proper (no_element blanks) = is_blank blanks
  are_proper (element v es) = is_proper v && are_proper es

-- The text is one of JSON.
abbrev pub IsText : Bytes → Type 0
IsText text = (v : Value) × (is_proper v ≡ true) × (text ≡ text_of v)
