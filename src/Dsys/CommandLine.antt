-- ===== src/Dsys/CommandLine.antt =====
-- How `Init` of a core reads a command line that is made of settings.
use seuss.Prelude.{
  ℕ, ◌+◌, ◌<◌, ◌≡◌, refl, ap, sym, ◌∙◌, append_assoc, false, none, some, [], ◌∷◌, ◌++◌, arith,
  nat_eq, Bytes, codes, length, drop, take-append_self, length-append, drop-append_self,
  find_first_of, ok,
}
use seuss.Prelude.Decimal.{to_string}
use seuss.Text.Search.{find_text, find_text-append, find_text-lacks, find_first_of-append}
use seuss.Text.Numbers.{atoi-to_string, to_string-lacks, is_digit, to_uint16}
use seuss.Hot.Defs.{HotCache}
use seuss.Invoker.Defs.{Counters}
use seuss.Invoker.Init.{init, limit_from, read_limit, read_hot_limits, value_at}

pub drop-append_two : (a b c : Bytes) → drop (length a + length b) (a ++ (b ++ c)) ≡ c
drop-append_two a b c =
    ap (λ n. drop n (a ++ (b ++ c))) (sym (length-append a b))
    ∙ ap (drop (length (a ++ b))) (sym (append_assoc a b c))
    ∙ drop-append_self (a ++ b) c

-- A setting that ends with a semicolon, whatever stands around it.
abbrev pub setting : (key : Bytes) (n : ℕ) (rest : Bytes) → Bytes
setting key n rest = key ++ (to_string n ++ b';' ∷ rest)

pub value_at-setting :
    (key text rest : Bytes) (n : ℕ)
    → value_at key (text ++ setting key n rest) (length text) ≡ to_string n
unfolding value_at is_digit
value_at-setting key text rest n = rw (
  drop-append_two text key (to_string n ++ b';' ∷ rest),
  find_text-append b';' [] (to_string n) rest (to_string-lacks n b';' refl),
  take-append_self (to_string n) (b';' ∷ rest),
)

pub limit_from-setting :
    (key text rest : Bytes) (n limit : ℕ)
    → n < 65536
    → limit_from key (text ++ setting key n rest) (some (length text)) limit ≡ ok n
unfolding limit_from to_uint16
limit_from-setting key text rest n limit h =
    rw (value_at-setting key text rest n, atoi-to_string n (omega arith)) (ground arith)

pub read_limit-setting :
    (k : ℕ) (key text rest : Bytes) (n limit : ℕ)
    → find_first_of k text ≡ none
    → n < 65536
    → read_limit (k ∷ key) (text ++ setting (k ∷ key) n rest) limit ≡ ok n
unfolding read_limit
read_limit-setting k key text rest n limit lacks h =
    rw (find_text-append k key text (to_string n ++ b';' ∷ rest) lacks)
      (limit_from-setting (k ∷ key) text rest n limit h)

pub read_limit-lacks :
    (k : ℕ) (key text : Bytes) (limit : ℕ)
    → find_first_of k text ≡ none
    → read_limit (k ∷ key) text limit ≡ ok limit
unfolding read_limit limit_from
read_limit-lacks k key text limit lacks = rw (find_text-lacks k key text lacks)

-- The whole line as the three settings cut it.
module _ (pre post : Bytes) (n₁ n₂ : ℕ) where
  abbrev pub after_first : Bytes
  after_first = pre ++ setting (codes "Clim=") n₁ []

  abbrev pub after_second : Bytes
  after_second = after_first ++ setting (codes "Slim=") n₂ []

  abbrev pub line : Bytes
  line = after_second ++ post

  pub line_first : line ≡ pre ++ setting (codes "Clim=") n₁ (setting (codes "Slim=") n₂ post)
  line_first = simp append_assoc

  pub line_second : line ≡ after_first ++ setting (codes "Slim=") n₂ post
  line_second = simp append_assoc

  pub after_first-lacks :
      (c : ℕ)
      → is_digit c ≡ false
      → find_first_of c (codes "Clim=;") ≡ none
      → find_first_of c pre ≡ none
      → find_first_of c after_first ≡ none
  after_first-lacks c other key lacks = find_first_of-append c pre _ lacks (
      find_first_of-append c (codes "Clim=") _ (ground (arith, key)) (
        find_first_of-append c (to_string n₁) (b';' ∷ []) (to_string-lacks n₁ c other)
          (ground (arith, key))))

  pub after_second-lacks :
      (c : ℕ)
      → is_digit c ≡ false
      → find_first_of c (codes "Clim=;") ≡ none
      → find_first_of c (codes "Slim=;") ≡ none
      → find_first_of c pre ≡ none
      → find_first_of c after_second ≡ none
  after_second-lacks c other key₁ key₂ lacks =
      find_first_of-append c after_first _ (after_first-lacks c other key₁ lacks) (
        find_first_of-append c (codes "Slim=") _ (ground (arith, key₂)) (
          find_first_of-append c (to_string n₂) (b';' ∷ []) (to_string-lacks n₂ c other)
            (ground (arith, key₂))))

  -- The first two limits are read from such a line, and the third as far as it is there.
  pub init-line :
      (c : Counters) (hot : HotCache) {reuses : ℕ}
      → find_first_of b'C' pre ≡ none
      → find_first_of b'S' pre ≡ none
      → n₁ < 65536
      → n₂ < 65536
      → read_limit (codes "Rlim=") line hot.hot_instance_reuse_limit ≡ ok reuses
      → init line c hot
        ≡ ok (
          record c { request_concurrency_limit = n₁ },
          record hot { hot_instance_limit = n₂; hot_instance_reuse_limit = reuses },
        )
  unfolding init read_hot_limits is_digit
  init-line c hot no_C no_S h₁ h₂ reads =
      let first : read_limit (codes "Clim=") line c.request_concurrency_limit ≡ ok n₁ =
        ap (λ text. read_limit (codes "Clim=") text c.request_concurrency_limit) line_first
        ∙ read_limit-setting b'C' (codes "lim=") pre _ n₁ _ no_C h₁ in
      let found : find_text (codes "Slim=") line ≡ some (length after_first) =
        ap (find_text (codes "Slim=")) line_second
        ∙ find_text-append b'S' (codes "lim=") after_first (to_string n₂ ++ b';' ∷ post)
            (after_first-lacks b'S' refl refl no_S) in
      let second : limit_from (codes "Slim=") line (some (length after_first))
            hot.hot_instance_limit
          ≡ ok n₂ =
        ap
          (λ text.
            limit_from (codes "Slim=") text (some (length after_first)) hot.hot_instance_limit)
          line_second
        ∙ limit_from-setting (codes "Slim=") after_first post n₂ hot.hot_instance_limit h₂ in
      rw (first, found, second, reads)
