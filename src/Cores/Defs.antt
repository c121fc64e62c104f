-- ===== src/Cores/Defs.antt =====
-- The state of the cores of a node, and what an event on one of them does to it.
use seuss.Prelude.{
  ℕ, suc, ◌≡◌, ◌<◌, Option, none, some, List, [], ◌∷◌, ◌++◌, nat_eq, ◌==◌, if◌then◌else◌, Result,
  ok, ◌>>=◌,
}
use seuss.Invocation.{Invocation}
use seuss.Root.Defs.{InvokerRoot, add_work, get_work}
use seuss.Invoker.Defs.{Counters, has_capacity, begin_invoke, end_invoke}

pub record Machine : Type 0 where
  pub root : InvokerRoot
  pub counters : ℕ → Counters  -- of each core
  pub pokes : List ℕ  -- the cores on which an event waits that calls `Poke`
  pub running : List (ℕ × Invocation)  -- each with its core

abbrev pub update {ℓ} : {A : Type ℓ} → (ℕ → A) → (core : ℕ) → A → ℕ → A
update f core x c = if c == core then x else f c

-- `Queue` on the core `mine`.
unfoldable pub arrive : (num_cpus mine : ℕ) → Invocation → Machine → Result Machine
arrive num_cpus mine i m = do
  (root, cores) ← add_work num_cpus mine m.root i
  ok (record m { root = root; pokes = m.pokes ++ cores })

-- What `GetWork` gives is run. `Invoke` soon waits for its session, and gives way to other events.
unfoldable pub take_up :
    (core : ℕ) → Option Invocation × InvokerRoot → Machine → Machine × List Invocation
take_up core (none, root) m = (record m { root = root }, [])
take_up core (some i, root) m = (
  record m {
    root = root;
    counters = update m.counters core (begin_invoke (m.counters core));
    running = (core, i) ∷ m.running;
  },
  i ∷ [],
)

-- `Poke` on a core, up to there, with the invocations that it starts.
unfoldable pub poke_core : (core : ℕ) → Machine → Result (Machine × List Invocation)
unfolding take_up
poke_core core m =
    if has_capacity (m.counters core)
    then (do work ← get_work m.root; ok (take_up core work m))
    else ok (m, [])

-- The end of `Invoke` on a core.
unfoldable pub leave : (core : ℕ) → Machine → Machine
leave core m = record m {
  counters = update m.counters core (end_invoke (m.counters core));
  pokes = core ∷ m.pokes;
}

-- An event runs: any of the pokes that wait, or any of the invocations under way ends. The list has the
-- invocations that are started.
pub data Moves (m : Machine) : List Invocation → Machine → Type 0 where
  poked :
      (before after : List ℕ) (core : ℕ) (is : List Invocation) (m' : Machine)
      → m.pokes ≡ before ++ core ∷ after
      → poke_core core (record m { pokes = before ++ after }) ≡ ok (m', is)
      → Moves m is m'
  ended :
      (before after : List (ℕ × Invocation)) (core : ℕ) (i : Invocation)
      → m.running ≡ before ++ (core, i) ∷ after
      → Moves m [] (leave core (record m { running = before ++ after }))

-- Some events in a row, while none arrives.
pub data Works : Machine → (steps : ℕ) → List Invocation → Machine → Type 0 where
  rest : (m : Machine) → Works m 0 [] m
  go :
      {n : ℕ} {is js : List Invocation} {m m₁ m₂ : Machine}
      → Moves m is m₁
      → Works m₁ n js m₂
      → Works m (suc n) (is ++ js) m₂

-- Nothing is under way, and the counters are those after `Init`.
abbrev pub quiet : (limit : ℕ) → InvokerRoot → Machine
quiet limit root = record {
  root = root;
  counters = λ c. record {
    request_concurrency = 0;
    request_concurrency_limit = limit;
    invctr = 0;
    port = 0;
  };
  pokes = [];
  running = [];
}

-- The states of a node with `num_cpus` cores, from its start on.
pub data Reach (num_cpus limit : ℕ) (root : InvokerRoot) : Machine → Type 0 where
  start : Reach num_cpus limit root (quiet limit root)
  arrives :
      {m : Machine} (mine : ℕ) (i : Invocation) (m' : Machine)
      → Reach num_cpus limit root m
      → mine < num_cpus
      → arrive num_cpus mine i m ≡ ok m'
      → Reach num_cpus limit root m'
  moves :
      {m m' : Machine} {is : List Invocation}
      → Reach num_cpus limit root m
      → Moves m is m'
      → Reach num_cpus limit root m'
