-- ===== src/Cores/Alive.antt =====
-- While work is queued on a node, an event is on its way that leads to it.
use seuss.Prelude.{
  ℕ, suc, ◌+◌, ◌%◌, ◌<◌, ◌≤◌, ◌≡◌, refl, ap, sym, subst, ◌∙◌, true, false, Option, none, some, inl,
  inr, List, [], ◌∷◌, ◌++◌, nat_eq, ◌==◌, if◌then◌else◌, ok, >>=-eq-ok, ok-injective, arith,
  Bool-cases, length, length-append,
}
use seuss.Invocation.{Invocation}
use seuss.Root.Defs.{InvokerRoot, add_work}
use seuss.Root.Queue.{IsQueued, view, dequeue, add_work-IsQueued, get_work-IsQueued}
use seuss.Root.Queue.Calls.{get_work_runs, work_taken, dequeue-none, add_work-pokes}
use seuss.Root.Wakeups.{poked_cores}
use seuss.Invoker.Defs.{has_capacity, begin_invoke, end_invoke}
use seuss.Cores.Defs.{
  Machine, arrive, take_up, poke_core, leave, Moves, poked, ended, Reach, start, arrives, moves,
}

-- How many invocations run on a core.
abbrev pub on_core : ℕ → List (ℕ × Invocation) → ℕ
on_core c [] = 0
on_core c ((k, i) ∷ rest) = if k == c then suc (on_core c rest) else on_core c rest

on_core-le-length : (c : ℕ) (l : List (ℕ × Invocation)) → on_core c l ≤ length l
on_core-le-length c [] = omega arith
on_core-le-length c ((k, i) ∷ l) = ground (arith, on_core-le-length c l)

pub on_core-middle :
    (c k : ℕ) (i : Invocation) (before after : List (ℕ × Invocation))
    → on_core c (before ++ (k, i) ∷ after)
      ≡ (if k == c then suc (on_core c (before ++ after)) else on_core c (before ++ after))
on_core-middle c k i [] after = refl
on_core-middle c k i ((j, other) ∷ before) after = ground (arith, on_core-middle c k i before after)

pub length-middle {ℓ} :
    {A : Type ℓ} (x : A) (before after : List A)
    → length (before ++ x ∷ after) ≡ suc (length (before ++ after))
length-middle x [] after = refl
length-middle x (y ∷ before) after = ap suc (length-middle x before after)

-- The work queue is one, and the counters count what runs.
pub record IsSound (limit : ℕ) (m : Machine) : Type 0 where
  pub queued : IsQueued m.root
  pub limited : (c : ℕ) → (m.counters c).request_concurrency_limit ≡ limit
  pub counted : (c : ℕ) → (m.counters c).request_concurrency ≡ on_core c m.running % 256

-- Where work is queued, a poke waits or an invocation runs, at whose end the core is poked.
abbrev pub IsAwake : Machine → Type 0
IsAwake m = 0 < length (view m.root) → 0 < length m.pokes + length m.running

abbrev pub IsAlive : (limit : ℕ) → Machine → Type 0
IsAlive limit m = IsSound limit m × IsAwake m

-- Without capacity the core runs something.
full_core :
    (limit : ℕ) (m : Machine) (core : ℕ)
    → 0 < limit
    → IsSound limit m
    → has_capacity (m.counters core) ≡ false
    → 0 < length m.running
unfolding has_capacity
full_core limit m core some_limit v full =
    let runs : 0 < on_core core m.running =
      ground (arith, full, v.limited core, v.counted core, some_limit) in
    omega (arith, runs, on_core-le-length core m.running)

-- `Poke` with capacity takes the oldest invocation, if there is one.
pub poke_takes :
    (core : ℕ) (m : Machine)
    → IsQueued m.root
    → has_capacity (m.counters core) ≡ true
    → (o : Option Invocation) × (root : InvokerRoot) × (poke_core core m
        ≡ ok (take_up core (o, root) m))
      × IsQueued root
      × ◌≡◌ {A = Option Invocation × List Invocation} (o, view root) (dequeue (view m.root))
unfolding poke_core
poke_takes core m queued free =
    let (o, root, e) = get_work_runs m.root queued in
    (
      o,
      root,
      rw (free, e) refl,
      get_work-IsQueued m.root queued e,
      work_taken m.root o root queued e,
    )

pub poke_rests :
    (core : ℕ) (m : Machine)
    → has_capacity (m.counters core) ≡ false
    → poke_core core m ≡ ok (m, [])
unfolding poke_core
poke_rests core m full = rw full refl

taken_up-IsAlive :
    (limit core : ℕ) (o : Option Invocation) (root : InvokerRoot) (m : Machine)
    → IsSound limit m
    → IsQueued root
    → ◌≡◌ {A = Option Invocation × List Invocation} (o, view root) (dequeue (view m.root))
    → IsAlive limit (take_up core (o, root) m).0
unfolding take_up begin_invoke
taken_up-IsAlive limit core none root m v queued took = (
  record { queued = queued; limited = v.limited; counted = v.counted },
  λ h. omega (arith, h, ap length (dequeue-none (view m.root) (view root) took).1),
)
taken_up-IsAlive limit core (some i) root m v queued took = (
  record {
    queued = queued;
    limited = λ c. ground (arith, v.limited c, v.limited core);
    counted = λ c. ground (arith, v.counted c, v.counted core);
  },
  λ h. omega arith,
)

poke_core-IsAlive :
    (limit core : ℕ) (m : Machine) (r : Machine × List Invocation)
    → 0 < limit
    → IsSound limit m
    → poke_core core m ≡ ok r
    → IsAlive limit r.0
poke_core-IsAlive limit core m r some_limit v e =
    elim (Bool-cases (has_capacity (m.counters core))) [
      | inl free ↦
          let (o, root, ran, queued, took) = poke_takes core m v.queued free in
          subst (λ (x : Machine × List Invocation). IsAlive limit x.0) (ok-injective (sym ran ∙ e))
            (taken_up-IsAlive limit core o root m v queued took)
      | inr full ↦
          subst (λ (x : Machine × List Invocation). IsAlive limit x.0)
            (ok-injective (sym (poke_rests core m full) ∙ e))
            (v, λ h. omega (arith, full_core limit m core some_limit v full))
    ]

leave-IsAlive :
    (limit core : ℕ) (m : Machine) (before after : List (ℕ × Invocation)) (i : Invocation)
    → m.running ≡ before ++ (core, i) ∷ after
    → IsSound limit m
    → IsAlive limit (leave core (record m { running = before ++ after }))
unfolding leave end_invoke
leave-IsAlive limit core m before after i runs v = (
  record {
    queued = v.queued;
    limited = λ c. ground (arith, v.limited c, v.limited core);
    counted = λ c.
        let ran = ap (on_core c) runs ∙ on_core-middle c core i before after in
        ground (arith, v.counted c, v.counted core, ran);
  },
  λ h. omega arith,
)

arrive-IsAlive :
    (num_cpus limit mine : ℕ) (i : Invocation) (m m' : Machine)
    → 1 < num_cpus
    → IsSound limit m
    → arrive num_cpus mine i m ≡ ok m'
    → IsAlive limit m'
unfolding arrive
arrive-IsAlive num_cpus limit mine i m m' several v e =
    let ((root, cores), added, rest) = >>=-eq-ok (add_work num_cpus mine m.root i) _ e in
    subst (IsAlive limit) (ok-injective rest) (
      record {
        queued = add_work-IsQueued num_cpus mine m.root i v.queued added;
        limited = v.limited;
        counted = v.counted;
      },
      λ h. omega (
        arith,
        length-append m.pokes cores,
        ap length (add_work-pokes num_cpus mine m.root root i cores added),
        poked_cores num_cpus mine i.info.transaction_id several,
      ),
    )

pub Moves-IsAlive :
    {limit : ℕ} {m m' : Machine} {is : List Invocation}
    → 0 < limit
    → Moves m is m'
    → IsSound limit m
    → IsAlive limit m'
Moves-IsAlive {limit} {m} some_limit (poked before after core is m' waits e) v =
    poke_core-IsAlive limit core (record m { pokes = before ++ after }) (m', is) some_limit
      (record { queued = v.queued; limited = v.limited; counted = v.counted }) e
Moves-IsAlive {limit} {m} some_limit (ended before after core i runs) v =
    leave-IsAlive limit core m before after i runs v

module _ {num_cpus limit : ℕ} {root : InvokerRoot} (several : 1 < num_cpus) (some_limit : 0 < limit)
    (queued : IsQueued root) (nothing : view root ≡ []) where
  pub Reach-IsAlive : {m : Machine} → Reach num_cpus limit root m → IsAlive limit m
  Reach-IsAlive start = (
    record { queued = queued; limited = λ c. refl; counted = λ c. refl },
    λ h. omega (arith, h, ap length nothing),
  )
  Reach-IsAlive (arrives {m} mine i m' r here e) =
      arrive-IsAlive num_cpus limit mine i m m' several (Reach-IsAlive r).0 e
  Reach-IsAlive (moves r move) = Moves-IsAlive some_limit move (Reach-IsAlive r).0

  -- On a node with more than one core, whose cores may run something, no work is ever stranded: whatever
  -- invocations arrive, on whatever cores, and in whatever order pokes are run and invocations end, as
  -- long as one is queued, a poke waits, or an invocation runs, at whose end its core is poked. The node
  -- starts with an empty work queue.
  pub never_stranded :
      {m : Machine}
      → Reach num_cpus limit root m
      → 0 < length (view m.root)
      → 0 < length m.pokes + length m.running
  never_stranded r waits = (Reach-IsAlive r).1 waits
