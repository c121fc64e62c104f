-- ===== src/Root/Examples.antt =====
-- Runs of the work queue and of the snapshot cache on small inputs.
use seuss.Prelude.{◌+◌, ℕ, ◌%◌, ◌≡◌, refl, true, false, List, [], ◌∷◌, ◌++◌, arith, codes, ok}
use seuss.Table.{find, erase, emplace}
use seuss.Invocation.{Invocation}
use seuss.Root.Defs.{InvokerRoot, poke_cores, add_work, pop_work, get_work, set_snapshot}
use seuss.Root.Queue.{IsQueued}
use seuss.Root.History.{Call, add, get, accepted, run, run-fifo}
use seuss.Root.Snapshots.{IsCached, copies, copies_held, capture, capture-owns}

abbrev invocation : ℕ → ℕ → Invocation
invocation tid fid = record {
  info = record {
    transaction_id = tid;
    function_id = fid;
    args_size = 2;
    activation_id = [];
    exec = record { run_time = 0; init_time = 0; status = false };
  };
  code = codes "x";
  args = codes "{}";
}

abbrev booted : InvokerRoot
booted = record {
  base_um_env = 90;
  preinit_env = 1;
  is_bootstrapped = true;
  request_map = [];
  request_queue = [];
  snapmap = [];
}

booted-IsQueued : IsQueued booted
unfolding find
booted-IsQueued = record { holds = λ tid. refl }

booted-IsCached : IsCached booted
booted-IsCached = record { bootstrapped = refl; distinct = tt; bounded = omega arith }

abbrev history : List Call
history =
    add 4 0 (invocation 7 1) ∷ add 4 0 (invocation 5 2) ∷ get ∷ add 4 0 (invocation 6 1) ∷ get ∷ []

run-fifo_example : (invocation 7 1 ∷ invocation 5 2 ∷ []) ++ invocation 6 1 ∷ [] ≡ accepted history
unfolding run add_work get_work pop_work poke_cores find emplace erase
run-fifo_example =
    run-fifo booted
      (record booted { request_map = (6, invocation 6 1) ∷ []; request_queue = 6 ∷ [] }) history
      (invocation 7 1 ∷ invocation 5 2 ∷ []) booted-IsQueued refl

-- Transaction 6 on a machine of four cores, queued by core 0: it wakes 2, 3 and 1.
poke_cores_example : poke_cores 4 0 (6 % 4) 4 0 ≡ 2 ∷ 3 ∷ 1 ∷ []
unfolding poke_cores
poke_cores_example = refl

abbrev captures : List (ℕ × ℕ)
captures = (1, 100) ∷ (2, 101) ∷ (1, 102) ∷ []

abbrev warmed : InvokerRoot
warmed = record booted { snapmap = (2, 101) ∷ (1, 100) ∷ [] }

captured : capture booted captures ≡ ok (warmed, 102 ∷ [])
unfolding capture set_snapshot find emplace
captured = refl

capture-owns_example : copies_held 102 warmed.snapmap + copies 102 (102 ∷ []) ≡ 1
capture-owns_example = capture-owns 102 booted warmed captures (102 ∷ []) booted-IsCached captured
