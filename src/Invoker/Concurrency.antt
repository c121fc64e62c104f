-- ===== src/Invoker/Concurrency.antt =====
-- How many invocations a core runs at once. `Invoke` gives way to other events while its session runs,
-- so the core's invocations start and end in any order: each step is the start of one, by a `Poke` that
-- found work, or the end of one.
use seuss.Prelude.{ℕ, zero, suc, ◌%◌, ◌≤◌, ◌≡◌, refl, ap, true, arith}
use seuss.Invoker.Defs.{Counters, has_capacity, begin_invoke, end_invoke}

pub record Core : Type 0 where
  pub counters : Counters
  pub in_flight : ℕ

abbrev pub started : Core → Core
started k = record { counters = begin_invoke k.counters; in_flight = suc k.in_flight }

abbrev pub ended : Core → ℕ → Core
ended k others = record { counters = end_invoke k.counters; in_flight = others }

pub data Step (k : Core) : Core → Type 0 where
  start : has_capacity k.counters ≡ true → Step k (started k)
  end : (others : ℕ) → k.in_flight ≡ suc others → Step k (ended k others)

-- A core before its first invocation.
abbrev pub idle : (limit : ℕ) → Core
idle limit = record {
  counters = record {
    request_concurrency = 0;
    request_concurrency_limit = limit;
    invctr = 0;
    port = 0;
  };
  in_flight = 0;
}

pub data Reach (limit : ℕ) : Core → Type 0 where
  here : Reach limit (idle limit)
  next : {k l : Core} → Reach limit k → Step k l → Reach limit l

-- The counter is the number of invocations, in a byte.
pub record IsCounted (limit : ℕ) (k : Core) : Type 0 where
  pub limited : k.counters.request_concurrency_limit ≡ limit
  pub counted : k.counters.request_concurrency ≡ k.in_flight % 256

Step-IsCounted : {limit : ℕ} {k l : Core} → Step k l → IsCounted limit k → IsCounted limit l
unfolding begin_invoke end_invoke
Step-IsCounted (start room) v = omega arith
Step-IsCounted (end others e) v = omega arith

pub Reach-IsCounted : {limit : ℕ} {k : Core} → Reach limit k → IsCounted limit k
Reach-IsCounted here = omega arith
Reach-IsCounted (next r s) = Step-IsCounted s (Reach-IsCounted r)

-- With a limit that a byte can hold, a core never runs more invocations than its limit, in whatever
-- order they start and end.
pub in_flight-le-limit : {limit : ℕ} {k : Core} → limit ≤ 255 → Reach limit k → k.in_flight ≤ limit
unfolding has_capacity begin_invoke
in_flight-le-limit small here = omega arith
in_flight-le-limit small (next r (start room)) =
    ground (arith, in_flight-le-limit small r, Reach-IsCounted r)
in_flight-le-limit small (next r (end others e)) = omega (arith, in_flight-le-limit small r)

-- With a larger limit the counter wraps around before it reaches the limit, and a core may run any
-- number of invocations at once.
pub in_flight_unbounded :
    (limit n : ℕ) → 256 ≤ limit → (k : Core) × Reach limit k × (k.in_flight ≡ n)
unfolding has_capacity
in_flight_unbounded limit zero big = (idle limit, here, refl)
in_flight_unbounded limit (suc n) big =
    let (k, r, e) = in_flight_unbounded limit n big in
    (started k, next r (start (ground (arith, Reach-IsCounted r))), ap suc e)
