-- ===== src/Prelude/Clock.antt =====
-- Time points, in nanoseconds.
use Prim.Native.Nat.{ℕ, ◌-◌, ◌/◌, ◌%◌, ◌^◌}
use seuss.Prelude.Tests.{leb, if◌then◌else◌}

-- Milliseconds from `start` to `now` as a `size_t`: a clock that went back wraps around.
unfoldable pub elapsed : (now start : ℕ) → ℕ
elapsed now start =
    if leb start now
    then (now - start) / 1000000 % 2 ^ 64
    else (2 ^ 64 - (start - now) / 1000000 % 2 ^ 64) % 2 ^ 64
