-- ===== src/Cores/Examples.antt =====
-- Small runs of a node with two cores, and of one with a single core.
use seuss.Prelude.{
  ℕ, ◌+◌, ◌<◌, ◌≤◌, ◌≡◌, refl, true, some, List, [], ◌∷◌, ◌++◌, codes, length, ok, arith, nat_eq,
}
use seuss.Table.{find, erase, emplace}
use seuss.Invocation.{Invocation}
use seuss.Root.Defs.{
  get_snapshot, get_base_sv, cache_is_full, InvokerRoot, poke_cores, add_work, get_work, pop_work,
}
use seuss.Root.Queue.{IsQueued, view}
use seuss.Root.Wakeups.{count}
use seuss.Invoker.Defs.{
  has_capacity, create_from, register_port, load_and_start, begin_invoke, get_internal_port,
}
use seuss.Cores.Defs.{
  Machine, arrive, take_up, poke_core, Works, rest, go, poked, quiet, Reach, start, arrives,
}
use seuss.Cores.Detail.{IsStep, poke-IsStep}
use seuss.Hot.Defs.{HotCache, hot_instances_are_enabled}
use seuss.Invoker.Starts.{
  waits, invoke, process_hot_start, process_warm_start, process_cold_start, run_attempt, or_else,
  conclude, events, status_of, ended_by,
}
use seuss.Invoker.Poke.{Poked, runs, poke, run_work}
use seuss.Cores.Alive.{on_core, never_stranded}
use seuss.Cores.Drain.{left, Works-bounded, comes_to_rest}
use seuss.Cores.Alone.{alone_never_runs}
use seuss.Cores.Apart.{ReachOver, io_core_never_runs}

abbrev root : InvokerRoot
root = record {
  base_um_env = 90;
  preinit_env = 1;
  is_bootstrapped = true;
  request_map = [];
  request_queue = [];
  snapmap = [];
}

root-IsQueued : IsQueued root
unfolding find
root-IsQueued = record { holds = λ tid. refl }

abbrev invocation : Invocation
invocation = record {
  info = record {
    transaction_id = 7;
    function_id = 5;
    args_size = 2;
    activation_id = [];
    exec = record { run_time = 0; init_time = 0; status = true };
  };
  args = codes "{}";
  code = codes "x";
}

-- One request has come in, on core 0.
abbrev busy : (pokes : List ℕ) → Machine
busy pokes = record (quiet 12 root) {
  root = record root { request_map = (7, invocation) ∷ []; request_queue = 7 ∷ [] };
  pokes = pokes;
}

comes_in : arrive 2 0 invocation (quiet 12 root) ≡ ok (busy (1 ∷ []))
unfolding arrive add_work poke_cores emplace
comes_in = refl

busy_reached : Reach 2 12 root (busy (1 ∷ []))
busy_reached = arrives 0 invocation (busy (1 ∷ [])) start (omega arith) comes_in

never_stranded_example : 0 < length (busy (1 ∷ [])).pokes + length (busy (1 ∷ [])).running
unfolding find
never_stranded_example =
    never_stranded (omega arith) (omega arith) root-IsQueued refl busy_reached (omega arith)

abbrev taken : Machine
taken = (take_up 1 (some invocation, root) (busy [])).0

takes : poke_core 1 (busy []) ≡ ok (taken, invocation ∷ [])
unfolding poke_core take_up has_capacity get_work pop_work find erase
takes = refl

one_event : Works (busy (1 ∷ [])) 1 (invocation ∷ []) taken
one_event = go (poked [] [] 1 (invocation ∷ []) taken refl takes) (rest taken)

Works-bounded_example :
    (1 ≤ left (busy (1 ∷ []))) × ((invocation ∷ []) ++ view taken.root ≡ view (busy (1 ∷ [])).root)
Works-bounded_example =
    Works-bounded (omega arith) (omega arith) root-IsQueued refl busy_reached one_event

comes_to_rest_example :
    (n : ℕ) × (is : List Invocation) × (m' : Machine) × Works (busy (1 ∷ [])) n is m'
    × (m'.pokes ≡ [])
    × (m'.running ≡ [])
    × (is ≡ invocation ∷ [])
unfolding find
comes_to_rest_example = comes_to_rest (omega arith) (omega arith) root-IsQueued refl busy_reached

comes_in_alone : arrive 1 0 invocation (quiet 12 root) ≡ ok (busy [])
unfolding arrive add_work poke_cores emplace
comes_in_alone = refl

alone_never_runs_example : ((busy []).pokes ≡ []) × ((busy []).running ≡ [])
alone_never_runs_example =
    alone_never_runs {limit = 12} {root = root} {m = busy []}
      (arrives 0 invocation (busy []) start (omega arith) comes_in_alone)

io_core_never_runs_example :
    (count 0 (busy (1 ∷ [])).pokes ≡ 0) × (on_core 0 (busy (1 ∷ [])).running ≡ 0)
io_core_never_runs_example =
    io_core_never_runs {num_cpus = 2} {limit = 12} {root = root} {m = busy (1 ∷ [])} (omega arith)
      (ReachOver.arrives invocation (busy (1 ∷ [])) ReachOver.start comes_in)

-- No instance is idle, and none is kept.
abbrev no_instance : HotCache
no_instance = record {
  hot_instance_limit = 0;
  hot_instance_reuse_limit = 300;
  stalled_instance_map = [];
  stalled_instance_fifo = [];
  stalled_instance_usage_count = [];
}

-- Core 1 waits for its first invocation.
abbrev waiting : Poked
waiting = runs (
  waits,
  record {
    root = root;
    hot = no_instance;
    counters = record {
      request_concurrency = 1;
      request_concurrency_limit = 12;
      invctr = 1;
      port = 2;
    };
  },
  create_from 90 71 ∷ register_port 71 49163 ∷ load_and_start 71 ∷ [],
)

waits_for_it :
    poke
      (λ id. true)
      2
      1
      70
      71
      []
      []
      []
      (record {
        root = (busy (1 ∷ [])).root;
        hot = no_instance;
        counters = (busy (1 ∷ [])).counters 1;
      })
    ≡ ok waiting
unfolding poke has_capacity get_work pop_work find erase run_work invoke process_hot_start
    process_warm_start process_cold_start get_snapshot get_base_sv run_attempt or_else conclude
    begin_invoke get_internal_port events hot_instances_are_enabled cache_is_full status_of ended_by
waits_for_it = refl

poke-IsStep_example :
    (m₁ : Machine) × (is : List Invocation) × (poke_core 1 (busy (1 ∷ [])) ≡ ok (m₁, is))
    × IsStep 1 m₁ is waiting
poke-IsStep_example =
    poke-IsStep (λ id. true) 2 1 70 71 [] [] [] refl refl refl 1 no_instance (busy (1 ∷ [])) waiting
      waits_for_it
