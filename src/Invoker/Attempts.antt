-- ===== src/Invoker/Attempts.antt =====
-- An attempt that goes well, whichever events it has, as a whole.
use seuss.Prelude.{ℕ, nat_eq, ◌≡◌, refl, Bool, true, List, [], ◌∷◌, ◌++◌, Bytes, ok, arith}
use seuss.Invocation.{Invocation, InvocationStats}
use seuss.Root.Defs.{InvokerRoot}
use seuss.Session.Defs.{new_session}
use seuss.Invoker.Defs.{Output, spawn_poke, begin_invoke, end_invoke, get_internal_port}
use seuss.Invoker.Starts.{Node, Job, finished, Event, run_attempt, ended_by}
use seuss.Invoker.Served.{EndsWell, replies, made, kept_hot}

-- The job that an attempt starts with.
abbrev pub first_job :
    (num_cpus mine : ℕ)
    → Invocation
    → (istats : InvocationStats) (umi_id : ℕ) (code : Bytes) → Node
    → Job
first_job num_cpus mine i istats umi_id code n = record {
  node = record n { counters = (get_internal_port num_cpus mine n.counters).1 };
  attempt = record {
    session = new_session (get_internal_port num_cpus mine n.counters).0;
    istats = istats;
    fid = i.info.function_id;
    umi_id = umi_id;
    args = i.args;
    code = code;
  };
}

-- The node behind it: a port is used up, the instance was offered to the cache, and the snapshot cache
-- may have got its snapshot.
abbrev pub after_attempt : (num_cpus mine fid umi_id : ℕ) → InvokerRoot → Node → Node
after_attempt num_cpus mine fid umi_id root n = record n {
  root = root;
  counters = (get_internal_port num_cpus mine n.counters).1;
  hot = kept_hot n.hot fid umi_id;
}

pub run_attempt-EndsWell :
    (known : ℕ → Bool) (num_cpus mine : ℕ) (checkpoint : Bool) (es : List Event) (i : Invocation)
    (istats : InvocationStats) (umi_id : ℕ) (code : Bytes) (prepare : (port : ℕ) → List Output)
    (n : Node) (root : InvokerRoot) {sent : InvocationStats × Bytes}
    → EndsWell known checkpoint es (first_job num_cpus mine i istats umi_id code n) root sent
    → (outs : List Output) × (run_attempt known num_cpus mine checkpoint es i istats umi_id code
          prepare n
        ≡ ok (
          finished true,
          after_attempt num_cpus mine i.info.function_id umi_id root n,
          prepare (get_internal_port num_cpus mine n.counters).0 ++ outs,
        ))
      × (replies outs ≡ sent ∷ [])
      × (made outs ≡ [])
unfolding run_attempt ended_by
run_attempt-EndsWell known num_cpus mine checkpoint es i istats umi_id code prepare n root
      (j', outs, e, finishes, sent, none_made, kept) =
    (outs, rw (e, finishes, kept), sent, none_made)

-- The end of `Invoke` adds no reply and no instance.
pub replies-poke : (outs : List Output) → replies (outs ++ spawn_poke ∷ []) ≡ replies outs
replies-poke [] = refl
replies-poke (o ∷ outs) = ground (arith, replies-poke outs)

pub made-poke : (outs : List Output) → made (outs ++ spawn_poke ∷ []) ≡ made outs
made-poke [] = refl
made-poke (o ∷ outs) = ground (arith, made-poke outs)

-- The node after `Invoke`, by the one that its attempt has left.
abbrev pub after_invoke : Node → Node
after_invoke n = record n { counters = end_invoke n.counters }

abbrev pub begun : Node → Node
begun n = record n { counters = begin_invoke n.counters }
