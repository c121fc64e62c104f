-- ===== src/Invoker/Fallback.antt =====
-- What `Invoke` does when an attempt is not made or fails.
use seuss.Prelude.{
  ℕ, nat_eq, ◌≡◌, refl, ap, ◌∙◌, ◌≢◌, ◌≤◌, ◌+◌, Bool, not, true, false, none, List, [], ◌∷◌, ◌++◌,
  ok, panic, Bytes, ◌>>=◌, arith,
}
use seuss.Table.{find}
use seuss.Invocation.{Invocation, InvocationStats}
use seuss.Root.Defs.{cache_is_full, get_base_sv, get_snapshot}
use seuss.Hot.Defs.{hot_instance_exists}
use seuss.Session.Defs.{
  aborted, finish, disable_timer, new_session, connect, connect_to, timer_start, spawn_set_value,
  set_finished,
}
use seuss.Session.History.{connects, fires, step}
use seuss.Invoker.Defs.{
  callback, when_aborted, begin_invoke, Output, Attempt, did, create_from, register_port,
  load_and_start, spawn_halt, get_internal_port,
}
use seuss.Invoker.Ports.{get_internal_port_bounds}
use seuss.Invoker.Events.{
  events-none, events-handler, events-calls_back, connect-new_session, fire-connecting,
}
use seuss.Invoker.Starts.{
  Node, Job, finished, handler, Event, calls_back, events, status_of, ended_by, run_attempt,
  process_hot_start, process_warm_start, process_cold_start, or_else, conclude, invoke,
}

-- The events of an instance that does not accept the connection in time.
abbrev pub no_answer : (t now later : ℕ) → List Event
no_answer t now later = handler (connects t) ∷ handler (fires now) ∷ calls_back later aborted ∷ []

abbrev no_answer_outputs : (port umi_id : ℕ) → List Output
no_answer_outputs port umi_id =
    did (connect_to port)
    ∷ did (timer_start 5000000)
    ∷ did (spawn_set_value aborted)
    ∷ did (set_finished false)
    ∷ spawn_halt umi_id
    ∷ []

events-no_answer :
    (known : ℕ → Bool) (checkpoint : Bool) (t now later port : ℕ) (j : Job)
    → t + 5000000000 ≤ now
    → port ≢ 0
    → j.attempt.session ≡ new_session port
    → (j' : Job) × (events known checkpoint (no_answer t now later) j
        ≡ ok (j', no_answer_outputs port j.attempt.umi_id))
unfolding step callback when_aborted finish disable_timer new_session
events-no_answer known checkpoint t now later port j late p new = (
  _,
  events-handler known checkpoint (connects t) _ j
      (ap (connect t) new ∙ connect-new_session t port p)
      (events-handler known checkpoint (fires now) _ _ (ap ok (fire-connecting t now port late)) (
        events-calls_back known checkpoint later aborted [] _ refl
          (events-none known checkpoint _))),
)

-- An attempt with these events fails.
run_attempt-no_answer :
    (known : ℕ → Bool) (num_cpus mine : ℕ) (checkpoint : Bool) (t now later : ℕ) (i : Invocation)
    (istats : InvocationStats) (umi_id : ℕ) (code : Bytes) (prepare : (port : ℕ) → List Output)
    (n : Node)
    → t + 5000000000 ≤ now
    → (n' : Node) × (outs : List Output) × (run_attempt known num_cpus mine checkpoint
          (no_answer t now later)
          i
          istats
          umi_id
          code
          prepare
          n
        ≡ ok (finished false, n', outs))
unfolding run_attempt status_of ended_by
run_attempt-no_answer known num_cpus mine checkpoint t now later i istats umi_id code prepare n
      late =
    let port = (get_internal_port num_cpus mine n.counters).0 in
    let far = (get_internal_port_bounds num_cpus mine n.counters).0 in
    let attempt : Attempt = record {
      session = new_session port;
      istats = istats;
      fid = i.info.function_id;
      umi_id = umi_id;
      args = i.args;
      code = code;
    } in
    let node = record n { counters = (get_internal_port num_cpus mine n.counters).1 } in
    let (j', e) =
      events-no_answer known checkpoint t now later port (record { node = node; attempt = attempt })
        late (λ z. omega arith) refl in
    (j'.node, prepare port ++ no_answer_outputs port umi_id, rw e)

module _ (known : ℕ → Bool) (num_cpus mine warm_id cold_id : ℕ) (hot_es warm_es : List Event)
    (i : Invocation) (n : Node)
    (no_instance : find i.info.function_id n.hot.stalled_instance_map ≡ none)
    (booted : n.root.is_bootstrapped ≡ true)
    (no_snapshot : find i.info.function_id n.root.snapmap ≡ none) where
  -- The first invocation of a function is a cold start.
  pub invoke_first :
      (cold_es : List Event)
      → invoke known num_cpus mine warm_id cold_id hot_es warm_es cold_es i n ≡ (
          process_cold_start known num_cpus mine cold_id cold_es i
            (record n { counters = begin_invoke n.counters })
          >>= λ tried. conclude known num_cpus mine tried)
  unfolding invoke process_hot_start process_warm_start or_else hot_instance_exists get_snapshot
  invoke_first cold_es = ground (arith, no_instance, booted, no_snapshot)

  -- The first invocation of a function: no instance is idle for it, and the node, which has booted, has
  -- no snapshot of it. Where its new instance does not accept the connection within 5 s, so that the
  -- timer ends the session, `Invoke` stops the machine.
  pub no_answer_stops :
      (t now later : ℕ)
      → t + 5000000000 ≤ now
      → invoke known num_cpus mine warm_id cold_id hot_es warm_es (no_answer t now later) i n
        ≡ panic
  unfolding process_cold_start get_base_sv conclude
  no_answer_stops t now later late =
      let (n', outs, e) =
        run_attempt-no_answer known num_cpus mine (not (cache_is_full n.root)) t now later i i.info
          cold_id i.code
          (λ port.
            create_from n.root.base_um_env cold_id
            ∷ register_port cold_id port
            ∷ load_and_start cold_id
            ∷ [])
          (record n { counters = begin_invoke n.counters }) late in
      invoke_first (no_answer t now later) ∙ simp (booted, e)
