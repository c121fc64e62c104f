-- ===== src/Prelude/Decimal.antt =====
-- `std::to_string` on an unsigned number, and a reader of decimal digits.
use Prim.Native.Nat.{ℕ, zero, suc, ◌+◌, ◌/◌, ◌%◌}
use mathlib.Core.List.{[], ◌∷◌}
use seuss.Prelude.Tests.{ltb, if◌then◌else◌}
use seuss.Prelude.Lists.{Bytes}

-- Digits, most significant first, before `acc`; the fuel bounds the number of digits.
unfoldable pub print : ℕ → ℕ → Bytes → Bytes
print zero n acc = acc
print (suc fuel) n acc =
    let digit = 48 + n % 10 in
    let rest = print fuel (n / 10) (digit ∷ acc) in if ltb n 10 then digit ∷ acc else rest

-- `n` has at most `n + 1` digits.
unfoldable pub to_string : ℕ → Bytes
unfolding print
to_string n = print (suc n) n []
