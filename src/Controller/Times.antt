-- ===== src/Controller/Times.antt =====
-- The waiting time that the front end reports.
use seuss.Prelude.{ℕ, ◌+◌, ◌^◌, ◌<◌, ◌≡◌, leb, if◌then◌else◌, arith}
use seuss.Invocation.{ExecStats}
use seuss.Controller.Defs.{wait_time}

-- With the waiting time that `ResolveActivation` reports, the three times add up to the total, if
-- running and initialising do not take longer than it; otherwise the waiting time has wrapped around,
-- and they add up to 2^64 more. All times fit into 64 bits.
pub wait_time_lem :
    (total : ℕ) (exec : ExecStats)
    → total < 2 ^ 64
    → exec.run_time + exec.init_time < 2 ^ 64
    → wait_time total exec + exec.run_time + exec.init_time
      ≡ (if leb (exec.run_time + exec.init_time) total then total else total + 2 ^ 64)
unfolding wait_time
wait_time_lem total exec h k = ground arith
