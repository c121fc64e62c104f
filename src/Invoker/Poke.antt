-- ===== src/Invoker/Poke.antt =====
-- `Poke`: a core asks for work, and runs it.
use seuss.Prelude.{
  ℕ, ◌≡◌, ap, ◌∙◌, Bool, true, Option, none, some, List, [], ◌∷◌, Result, ok, ◌>>=◌, if◌then◌else◌,
}
use seuss.Invocation.{Invocation}
use seuss.Root.Defs.{InvokerRoot, get_work}
use seuss.Root.Queue.{IsQueued, view, dequeue, get_work-IsQueued}
use seuss.Root.Queue.Calls.{get_work_runs, work_taken}
use seuss.Invoker.Defs.{has_capacity}
use seuss.Invoker.Starts.{Node, Event, Tried, invoke}

-- The core does nothing, or it runs an invocation.
pub data Poked : Type 0 where
  rests : Node → Poked
  runs : Tried → Poked

module _ (known : ℕ → Bool) (num_cpus mine warm_id cold_id : ℕ)
    (hot_es warm_es cold_es : List Event) where
  -- `Poke` past its test, by what `GetWork` gives.
  unfoldable pub run_work : Option Invocation × InvokerRoot → Node → Result Poked
  run_work (none, root) n = ok (rests (record n { root = root }))
  run_work (some i, root) n = do
    tried ←
        invoke known num_cpus mine warm_id cold_id hot_es warm_es cold_es i
          (record n { root = root })
    ok (runs tried)

  unfoldable pub poke : Node → Result Poked
  unfolding run_work
  poke n =
      if has_capacity n.counters then (do work ← get_work n.root; run_work work n) else ok (rests n)

  -- The invocation that is run, and the node that it starts on.
  abbrev pub run_oldest : List Invocation → Node → (InvokerRoot → Result Poked)
  run_oldest [] n root = ok (rests (record n { root = root }))
  run_oldest (i ∷ is) n root = do
    tried ←
        invoke known num_cpus mine warm_id cold_id hot_es warm_es cold_es i
          (record n { root = root })
    ok (runs tried)

  run_work-dequeue :
      (o : Option Invocation) (root : InvokerRoot) (n : Node) (is : List Invocation)
      → ◌≡◌ {A = Option Invocation × List Invocation} (o, view root) (dequeue is)
      → run_work (o, root) n ≡ run_oldest is n root
  unfolding run_work
  run_work-dequeue o root n [] e = ap (λ x. run_work (x.0, root) n) e
  run_work-dequeue o root n (i ∷ is) e = ap (λ x. run_work (x.0, root) n) e

  -- In terms of the abstract queue of the node, which stays one: a core without capacity does nothing. One with
  -- capacity takes the oldest invocation off the queue and runs it, on a node where the others still
  -- wait in their order; where none waits, it does nothing.
  pub poke-view :
      (n : Node)
      → IsQueued n.root
      → (root : InvokerRoot) × IsQueued root
        × (view root ≡ (dequeue (view n.root)).1)
        × (poke n
            ≡ (if has_capacity n.counters then run_oldest (view n.root) n root else ok (rests n)))
  unfolding poke
  poke-view n v =
      let (o, root, e) = get_work_runs n.root v in
      let taken = work_taken n.root o root v e in
      (
        root,
        get_work-IsQueued n.root v e,
        ap (λ x. x.1) taken,
        ap
              (λ (m : Result (Option Invocation × InvokerRoot)).
                if has_capacity n.counters then (m >>= λ work. run_work work n) else ok (rests n))
              e
            ∙ ap (λ m. if has_capacity n.counters then m else ok (rests n))
                (run_work-dequeue o root n (view n.root) taken),
      )

  -- A core with capacity, on a node where an invocation waits.
  pub poke_oldest :
      (n : Node) (i : Invocation) (is : List Invocation)
      → IsQueued n.root
      → has_capacity n.counters ≡ true
      → view n.root ≡ i ∷ is
      → (root : InvokerRoot) × (get_work n.root ≡ ok (some i, root))
        × (view root ≡ is)
        × (poke n ≡ (
            invoke known num_cpus mine warm_id cold_id hot_es warm_es cold_es i
              (record n { root = root })
            >>= λ tried. ok (runs tried)))
  unfolding poke run_work
  poke_oldest n i is v free oldest =
      let (o, root, e) = get_work_runs n.root v in
      let taken : ◌≡◌ {A = Option Invocation × List Invocation} (o, view root) (some i, is) =
        work_taken n.root o root v e ∙ ap dequeue oldest in
      let got : get_work n.root ≡ ok (some i, root) = e ∙ ap (λ x. ok (x.0, root)) taken in
      (root, got, ap (λ x. x.1) taken, rw (free, got))
