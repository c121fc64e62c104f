-- ===== src/Cores/Drain.antt =====
-- Queued work gets run: the events of a node on which nothing more arrives.
use seuss.Prelude.{
  ℕ, zero, suc, ◌+◌, ◌*◌, ◌<◌, ◌≤◌, ◌≡◌, refl, ap, sym, subst, ◌∙◌, Option, none, some, inl, inr,
  List, [], ◌∷◌, ◌++◌, append_assoc, append-nil, ok, ok-injective, arith, Bool-cases, length,
  empty_of_length,
}
use native.Mathlib.Decide.{dec_lt}
use seuss.Invocation.{Invocation}
use seuss.Root.Defs.{InvokerRoot}
use seuss.Root.Queue.{IsQueued, view, dequeue}
use seuss.Root.Queue.Calls.{dequeue-none, dequeue-some}
use seuss.Invoker.Defs.{has_capacity}
use seuss.Cores.Defs.{
  Machine, take_up, poke_core, leave, Moves, poked, ended, Works, rest, go, Reach,
}
use seuss.Cores.Alive.{IsAlive, length-middle, poke_takes, poke_rests, Moves-IsAlive, Reach-IsAlive}

-- What is left to do: a queued invocation takes at most three events, one that runs two, and a poke one.
abbrev pub left : Machine → ℕ
left m = 3 * length (view m.root) + 2 * length m.running + length m.pokes

-- One event takes something off, and starts the oldest of what is queued, or nothing.
abbrev Serves : Machine → List Invocation → Machine → Type 0
Serves m is m' = (suc (left m') ≤ left m) × (is ++ view m'.root ≡ view m.root)

take_up-Serves :
    (core : ℕ) (o : Option Invocation) (root : InvokerRoot) (m : Machine)
    → ◌≡◌ {A = Option Invocation × List Invocation} (o, view root) (dequeue (view m.root))
    → (left (take_up core (o, root) m).0 ≤ left m)
      × ((take_up core (o, root) m).1 ++ view (take_up core (o, root) m).0.root ≡ view m.root)
unfolding take_up
take_up-Serves core none root m took =
    let (nothing, still) = dequeue-none (view m.root) (view root) took in
    (omega (arith, ap length nothing, ap length still), still ∙ sym nothing)
take_up-Serves core (some i) root m took =
    let oldest = dequeue-some (view m.root) (view root) i took in
    (omega (arith, ap length oldest), oldest)

Moves-Serves :
    {m m' : Machine} {is : List Invocation} → IsQueued m.root → Moves m is m' → Serves m is m'
unfolding leave
Moves-Serves {m} {m'} {is} queued (poked before after core is' m₁ waits e) =
    let n = record m { pokes = before ++ after } in
    let fewer = ap length waits ∙ length-middle core before after in
    elim (Bool-cases (has_capacity (m.counters core))) [
      | inl free ↦
          let (o, root, ran, kept, took) = poke_takes core n queued free in
          let served = take_up-Serves core o root n took in
          subst (λ (r : Machine × List Invocation). Serves m r.1 r.0) (ok-injective (sym ran ∙ e))
            (omega (arith, fewer, served), served.1)
      | inr full ↦
          subst (λ (r : Machine × List Invocation). Serves m r.1 r.0)
            (ok-injective (sym (poke_rests core n full) ∙ e)) (omega (arith, fewer), refl)
    ]
Moves-Serves {m} queued (ended before after core i runs) =
    (omega (arith, ap length runs, length-middle (core, i) before after), refl)

poke_core_runs :
    (core : ℕ) (m : Machine)
    → IsQueued m.root
    → (m' : Machine) × (is : List Invocation) × (poke_core core m ≡ ok (m', is))
poke_core_runs core m queued = elim (Bool-cases (has_capacity (m.counters core))) [
  | inl free ↦ let (o, root, ran, kept, took) = poke_takes core m queued free in (_, _, ran)
  | inr full ↦ (m, [], poke_rests core m full)
]

-- An event can run as long as a poke waits or an invocation runs.
next_event :
    (m : Machine)
    → IsQueued m.root
    → 0 < length m.pokes + length m.running
    → (is : List Invocation) × (m' : Machine) × Moves m is m'
next_event m queued some_event = by_pokes m.pokes refl
  where
    by_running :
        (l : List (ℕ × Invocation))
        → m.running ≡ l
        → 0 < length l
        → (is : List Invocation) × (m' : Machine) × Moves m is m'
    by_running [] runs h = absurd (omega (arith, h))
    by_running ((core, i) ∷ after) runs h =
        ([], leave core (record m { running = after }), ended [] after core i runs)

    by_pokes : (l : List ℕ) → m.pokes ≡ l → (is : List Invocation) × (m' : Machine) × Moves m is m'
    by_pokes [] none_wait =
        by_running m.running refl (omega (arith, some_event, ap length none_wait))
    by_pokes (core ∷ after) waits =
        let (m', is, ran) = poke_core_runs core (record m { pokes = after }) queued in
        (is, m', poked [] after core is m' waits ran)

Works-left :
    {limit : ℕ} {m m' : Machine} {n : ℕ} {is : List Invocation}
    → 0 < limit
    → Works m n is m'
    → IsAlive limit m
    → (n + left m' ≤ left m) × (is ++ view m'.root ≡ view m.root) × IsAlive limit m'
Works-left some_limit (rest m) alive = (omega arith, refl, alive)
Works-left some_limit (go {n} {is} {js} {m} {m₁} {m₂} move works) alive =
    let (less, oldest) = Moves-Serves alive.0.queued move in
    let (bound, order, alive₂) =
      Works-left some_limit works (Moves-IsAlive some_limit move alive.0) in
    (
      omega (arith, bound, less),
      append_assoc is js (view m₂.root) ∙ ap (λ l. is ++ l) order ∙ oldest,
      alive₂,
    )

-- A node at rest has nothing queued.
at_rest :
    {limit : ℕ} {m : Machine} → IsAlive limit m → m.pokes ≡ [] → m.running ≡ [] → view m.root ≡ []
at_rest {limit} {m} alive no_poke none_runs = by_queue (view m.root) alive.1
  where
    by_queue :
        (l : List Invocation) → (0 < length l → 0 < length m.pokes + length m.running) → l ≡ []
    by_queue [] awake = refl
    by_queue (i ∷ l) awake =
        absurd (omega (arith, awake (omega arith), ap length no_poke, ap length none_runs))

-- Events up to the rest.
run_down :
    {limit : ℕ}
    → 0 < limit
    → (fuel : ℕ) (m : Machine) → left m < fuel
    → IsAlive limit m
    → (n : ℕ) × (is : List Invocation) × (m' : Machine) × Works m n is m'
      × (m'.pokes ≡ [])
      × (m'.running ≡ [])
run_down some_limit zero m h alive = absurd (omega arith)
run_down {limit} some_limit (suc fuel) m h alive =
    elim (dec_lt 0 (length m.pokes + length m.running)) [
      | yes some_event ↦
          let (is, m₁, move) = next_event m alive.0.queued some_event in
          let less = (Moves-Serves alive.0.queued move).0 in
          let (n, js, m', works, no_poke, none_runs) =
            run_down some_limit fuel m₁ (omega (arith, less))
              (Moves-IsAlive some_limit move alive.0) in
          (suc n, is ++ js, m', go move works, no_poke, none_runs)
      | no no_event ↦ (
        0,
        [],
        m,
        rest m,
        empty_of_length m.pokes (omega (arith, no_event)),
        empty_of_length m.running (omega (arith, no_event)),
      )
    ]

module _ {num_cpus limit : ℕ} {root : InvokerRoot} (several : 1 < num_cpus) (some_limit : 0 < limit)
    (queued : IsQueued root) (nothing : view root ≡ []) where
  -- On a node with more than one core, whose cores may run something, and whose work queue was empty at its
  -- start: however the events are ordered while nothing more arrives, there are no more of them than three for
  -- each queued invocation, two for each that runs, and one for each poke. What they start, followed by
  -- what is still queued, is what was queued: the invocations are started in their order, each once.
  pub Works-bounded :
      {m m' : Machine} {n : ℕ} {is : List Invocation}
      → Reach num_cpus limit root m
      → Works m n is m'
      → (n ≤ left m) × (is ++ view m'.root ≡ view m.root)
  Works-bounded r works =
      let (bound, order, alive) =
        Works-left some_limit works (Reach-IsAlive several some_limit queued nothing r) in
      (omega (arith, bound), order)

  -- On a node with more than one core, whose cores may run something, and whose work queue was empty at its
  -- start: in every state that it gets to, some events bring it to rest, so that no poke waits and nothing
  -- runs, and these start exactly the invocations that were queued, in their order.
  pub comes_to_rest :
      {m : Machine}
      → Reach num_cpus limit root m
      → (n : ℕ) × (is : List Invocation) × (m' : Machine) × Works m n is m'
        × (m'.pokes ≡ [])
        × (m'.running ≡ [])
        × (is ≡ view m.root)
  comes_to_rest {m} r =
      let alive = Reach-IsAlive several some_limit queued nothing r in
      let (n, is, m', works, no_poke, none_runs) =
        run_down some_limit (suc (left m)) m (omega arith) alive in
      let (bound, order, alive') = Works-left some_limit works alive in
      let all = ap (λ l. is ++ l) (at_rest alive' no_poke none_runs) in
      (n, is, m', works, no_poke, none_runs, sym (append-nil is) ∙ sym all ∙ order)
