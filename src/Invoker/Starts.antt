-- ===== src/Invoker/Starts.antt =====
-- `Invoke` and its three attempts: a hot start in an idle instance, a warm start from the function's
-- snapshot, a cold start from the base snapshot.
use seuss.Prelude.{
  ℕ, Bool, true, false, not, Option, none, some, List, [], ◌∷◌, ◌++◌, nat_eq, ◌==◌, Bytes, ◌||◌,
  if◌then◌else◌, Result, ok, panic, ◌>>=◌,
}
use seuss.Invocation.{InvocationStats, Invocation}
use seuss.Root.Defs.{InvokerRoot, get_base_sv, get_snapshot, cache_is_full, set_snapshot}
use seuss.Hot.Defs.{HotCache, hot_instances_are_enabled, hot_instance_exists, get_hot_instance}
use seuss.Session.Defs.{set_finished, Promise, new_session}
use seuss.Session.History.{Call, step}
use seuss.Invoker.Defs.{
  Counters, get_internal_port, begin_invoke, end_invoke, Attempt, Output, did, all_did, callback,
  create_from, register_port, load_and_start, set_active, signal_resume, spawn_poke,
}

-- The state that an attempt works on.
pub record Node : Type 0 where
  pub root : InvokerRoot
  pub hot : HotCache
  pub counters : Counters

-- What happens while an attempt waits for its session to finish: a handler of the session, the callback
-- of one of its promises, the snapshot of the new instance, or anything that other invocations and
-- other cores make of the state.
pub data Event : Type 0 where
  handler : Call → Event
  calls_back : (now : ℕ) → Promise → Event
  captured : (sv : ℕ) → Event
  interferes : Node → Event

pub record Job : Type 0 where
  pub node : Node
  pub attempt : Attempt

-- Of the attempts, only a cold start may have asked for a snapshot.
unfoldable pub event :
    (known : ℕ → Bool) (checkpoint : Bool) → Event → Job → Result (Job × List Output)
event known checkpoint (handler c) j = do
  (session, acts) ← step j.attempt.session c
  ok (record j { attempt = record j.attempt { session = session } }, all_did acts)
event known checkpoint (calls_back now p) j = do
  (attempt, hot, outs) ← callback known now p j.attempt j.node.hot
  ok (record { node = record j.node { hot = hot }; attempt = attempt }, outs)
event known checkpoint (interferes n) j = ok (record j { node = n }, [])
event known false (captured sv) j = ok (j, [])
event known true (captured sv) j = do
  (root, saved, deleted) ← set_snapshot j.node.root j.attempt.fid sv
  ok (record j { node = record j.node { root = root } }, [])

unfoldable pub events :
    (known : ℕ → Bool) (checkpoint : Bool) → List Event → Job → Result (Job × List Output)
events known checkpoint [] j = ok (j, [])
events known checkpoint (e ∷ es) j = do
  (j', outs) ← event known checkpoint e j
  (j'', more) ← events known checkpoint es j'
  ok (j'', outs ++ more)

-- `WhenFinished().Get()`: the first status that is set.
unfoldable pub status_of : List Output → Option Bool
status_of [] = none
status_of (did (set_finished b) ∷ outs) = some b
status_of (o ∷ outs) = status_of outs

-- How an attempt ends: it is not made, its session never finishes, or it finishes with a status.
pub data Ended : Type 0 where
  declined waits : Ended
  finished : Bool → Ended

unfoldable pub ended_by : Option Bool → Ended
ended_by none = waits
ended_by (some b) = finished b

abbrev pub Tried : Type 0
Tried = Ended × Node × List Output

-- Whether a snapshot was asked for, the instance, and the events of an attempt.
unfoldable pub run_attempt :
    (known : ℕ → Bool) (num_cpus mine : ℕ) (checkpoint : Bool)
    → List Event
    → Invocation
    → (istats : InvocationStats) (umi_id : ℕ) (code : Bytes) → (prepare : (port : ℕ) → List Output)
    → Node
    → Result Tried
unfolding ended_by
run_attempt known num_cpus mine checkpoint es i istats umi_id code prepare n = do
  let (port, counters) = get_internal_port num_cpus mine n.counters
  let attempt : Attempt = record {
    session = new_session port;
    istats = istats;
    fid = i.info.function_id;
    umi_id = umi_id;
    args = i.args;
    code = code;
  }
  let job : Job = record { node = record n { counters = counters }; attempt = attempt }
  (j, outs) ← events known checkpoint es job
  ok (ended_by (status_of outs), j.node, prepare port ++ outs)

module _ (known : ℕ → Bool) (num_cpus mine : ℕ) where
  unfoldable pub process_hot_start : List Event → Invocation → Node → Result Tried
  process_hot_start es i n =
      if not (hot_instances_are_enabled n.hot)
      then ok (declined, n, [])
      else if not (hot_instance_exists n.hot i.info.function_id)
      then ok (declined, n, [])
      else do
        (umi_id, hot) ← get_hot_instance n.hot i.info.function_id
        let n' = record n { hot = hot }
        if umi_id == 0 || not (known umi_id)
            then ok (declined, n', [])
            else run_attempt known num_cpus mine false es i i.info umi_id []
                (λ port. register_port umi_id port ∷ set_active umi_id ∷ signal_resume umi_id ∷ [])
                n'

  -- A warm start is marked by an initialisation time of 1. `umi_id` is the id that the manager gives to
  -- the new instance.
  unfoldable pub process_warm_start : (umi_id : ℕ) → List Event → Invocation → Node → Result Tried
  process_warm_start umi_id es i n = do
    let istats = record i.info { exec = record i.info.exec { init_time = 1 } }
    cached_snap ← get_snapshot n.root i.info.function_id
    elim cached_snap [
      | none ↦ ok (declined, n, [])
      | some sv ↦
          run_attempt known num_cpus mine false es i istats umi_id []
            (λ port. create_from sv umi_id ∷ register_port umi_id port ∷ load_and_start umi_id ∷ [])
            n
    ]

  unfoldable pub process_cold_start : (umi_id : ℕ) → List Event → Invocation → Node → Result Tried
  process_cold_start umi_id es i n = do
    base_env ← get_base_sv n.root
    run_attempt known num_cpus mine (not (cache_is_full n.root)) es i i.info umi_id i.code
        (λ port.
          create_from base_env umi_id ∷ register_port umi_id port ∷ load_and_start umi_id ∷ [])
        n

  -- The next attempt, if the one before was not made or has failed.
  unfoldable pub or_else : Tried → (Node → Result Tried) → Result Tried
  or_else (finished true, n, outs) try = ok (finished true, n, outs)
  or_else (waits, n, outs) try = ok (waits, n, outs)
  or_else (other, n, outs) try = do (ended, n', more) ← try n; ok (ended, n', outs ++ more)

  -- The end of `Invoke`: without a success the machine stops.
  unfoldable pub conclude : Tried → Result Tried
  conclude (finished true, n, outs) =
      ok (finished true, record n { counters = end_invoke n.counters }, outs ++ spawn_poke ∷ [])
  conclude (waits, n, outs) = ok (waits, n, outs)
  conclude other = panic

  -- `Invoke`, with the events of its three attempts and the ids of the instances that it may create.
  unfoldable pub invoke :
      (warm_id cold_id : ℕ) (hot_es warm_es cold_es : List Event) → Invocation → Node → Result Tried
  unfolding or_else conclude
  invoke warm_id cold_id hot_es warm_es cold_es i n = do
    tried_hot ← process_hot_start hot_es i (record n { counters = begin_invoke n.counters })
    tried_warm ← or_else tried_hot (process_warm_start warm_id warm_es i)
    tried_cold ← or_else tried_warm (process_cold_start cold_id cold_es i)
    conclude tried_cold
