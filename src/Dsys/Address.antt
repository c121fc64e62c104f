-- ===== src/Dsys/Address.antt =====
-- `get_member_ip` of src/dsys/dsys.h on a native node: the four numbers of a dotted address.
use seuss.Prelude.{
  ℕ, zero, suc, ◌+◌, Option, none, some, List, [], ◌∷◌, nat_eq, ltb, Bytes, take, drop,
  find_first_of, if◌then◌else◌, Result, ok, panic, ◌>>=◌,
}
use seuss.Prelude.Int.{ℤ, pos, negsuc}
use seuss.Text.Numbers.{signed, skip_spaces}

unfoldable pub byte_of : ℤ → Result ℕ
byte_of (pos n) = if ltb n 256 then ok n else panic
byte_of (negsuc n) = panic

-- `sscanf(text, "%hhu", &byte)` on a byte that is 0. Its result is undefined where the number is no byte.
unfoldable pub scan_byte : Bytes → Result ℕ
unfolding byte_of
scan_byte text = byte_of (signed (skip_spaces text))

-- The text up to the next dot, and the place behind it, which is 0 where there is no dot: `npos + 1`.
unfoldable pub next_part : (last : ℕ) (text : Bytes) → Option ℕ → Bytes × ℕ
next_part last text none = (text, 0)
next_part last text (some n) = (take n text, last + n + 1)

-- The loop, with `left` rounds to go.
unfoldable pub scan_parts : (left last : ℕ) → Bytes → Result (List ℕ)
unfolding next_part
scan_parts zero last mid = ok []
scan_parts (suc left) last mid = do
  let text = drop last mid
  let (part, last') = next_part last text (find_first_of b'.' text)
  byte ← scan_byte part
  rest ← scan_parts left last' mid
  ok (byte ∷ rest)

unfoldable pub get_member_ip : Bytes → Result (List ℕ)
get_member_ip mid = scan_parts 4 0 mid
