-- ===== src/Prelude/Int.antt =====
-- Signed numbers: `long long`. `negsuc n` is -(n + 1).
use seuss.Prelude.Lists.{Bytes}
use seuss.Prelude.Tests.{ltb, if◌then◌else◌}
use seuss.Prelude.Decimal.{to_string}
use Prim.Native.Nat.{ℕ, ◌+◌, ◌-◌, ◌%◌, ◌^◌}
use mathlib.Core.List.{◌∷◌}

pub data ℤ : Type 0 where
  pos : ℕ → ℤ
  negsuc : ℕ → ℤ

-- `std::to_string(long long)`
unfoldable pub to_string_signed : ℤ → Bytes
to_string_signed (pos n) = to_string n
to_string_signed (negsuc n) = b'-' ∷ to_string (n + 1)

-- A 64-bit word as a `long long`.
unfoldable pub of_word : ℕ → ℤ
of_word n = if ltb n (2 ^ 63) then pos n else negsuc (2 ^ 64 - n - 1)

-- A `long long` as a 64-bit word.
unfoldable pub to_word : ℤ → ℕ
to_word (pos n) = n % 2 ^ 64
to_word (negsuc n) = 2 ^ 64 - 1 - n % 2 ^ 64
