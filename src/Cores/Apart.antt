-- ===== src/Cores/Apart.antt =====
-- The core that takes the messages of the front end is kept apart from the work.
use seuss.Prelude.{
  ℕ, ◌+◌, ◌<◌, ◌≡◌, ◌≢◌, refl, ap, sym, subst, ◌∙◌, Bool, Option, none, some, inl, inr, List, [],
  ◌∷◌, ◌++◌, nat_eq, if◌then◌else◌, ok, ◌>>=◌, >>=-eq-ok, ok-injective, arith, Bool-cases,
}
use seuss.Invocation.{Invocation}
use seuss.Root.Defs.{InvokerRoot, add_work, get_work}
use seuss.Root.Queue.Calls.{add_work-pokes}
use seuss.Root.Wakeups.{count, count-poke_cores_all}
use seuss.Invoker.Defs.{has_capacity}
use seuss.Cores.Defs.{Machine, arrive, take_up, poke_core, leave, Moves, poked, ended, quiet}
use seuss.Cores.Alive.{on_core, on_core-middle}

-- The states of a node whose requests all come in on one core.
pub data ReachOver (num_cpus limit io : ℕ) (root : InvokerRoot) : Machine → Type 0 where
  start : ReachOver num_cpus limit io root (quiet limit root)
  arrives :
      {m : Machine} (i : Invocation) (m' : Machine)
      → ReachOver num_cpus limit io root m
      → arrive num_cpus io i m ≡ ok m'
      → ReachOver num_cpus limit io root m'
  moves :
      {m m' : Machine} {is : List Invocation}
      → ReachOver num_cpus limit io root m
      → Moves m is m'
      → ReachOver num_cpus limit io root m'

count-append : (c : ℕ) (ks js : List ℕ) → count c (ks ++ js) ≡ count c ks + count c js
count-append c [] js = omega arith
count-append c (k ∷ ks) js = ground (arith, count-append c ks js)

-- No poke waits for the core, and nothing runs on it.
abbrev IsApart : ℕ → Machine → Type 0
IsApart io m = (count io m.pokes ≡ 0) × (on_core io m.running ≡ 0)

arrive-IsApart :
    (num_cpus io : ℕ) (i : Invocation) (m m' : Machine)
    → 0 < num_cpus
    → arrive num_cpus io i m ≡ ok m'
    → IsApart io m
    → IsApart io m'
unfolding arrive
arrive-IsApart num_cpus io i m m' some_cpu e (no_poke, none_runs) =
    let ((root, cores), added, rest) = >>=-eq-ok (add_work num_cpus io m.root i) _ e in
    let tid = i.info.transaction_id in
    let not_poked : count io cores ≡ 0 =
      ap (count io) (add_work-pokes num_cpus io m.root root i cores added)
      ∙ count-poke_cores_all num_cpus io tid io some_cpu
      ∙ ground arith in
    subst (IsApart io) (ok-injective rest)
      (omega (arith, no_poke, not_poked, count-append io m.pokes cores), none_runs)

take_up-IsApart :
    (io core : ℕ) (work : Option Invocation × InvokerRoot) (m : Machine)
    → core ≢ io
    → IsApart io m
    → IsApart io (take_up core work m).0
unfolding take_up
take_up-IsApart io core (none, root) m other v = v
take_up-IsApart io core (some i, root) m other v = (v.0, ground (arith, v, other))

poke_core-IsApart :
    (io core : ℕ) (m : Machine) (r : Machine × List Invocation)
    → core ≢ io
    → IsApart io m
    → poke_core core m ≡ ok r
    → IsApart io r.0
unfolding poke_core
poke_core-IsApart io core m r other v e =
    let from = λ (b : Bool).
      if b then (get_work m.root >>= λ work. ok (take_up core work m)) else ok (m, []) in
    elim (Bool-cases (has_capacity (m.counters core))) [
      | inl free ↦
          let run = ap from (sym free) ∙ e in
          let (work, got, rest) = >>=-eq-ok (get_work m.root) _ run in
          subst (λ (x : Machine × List Invocation). IsApart io x.0) (ok-injective rest)
            (take_up-IsApart io core work m other v)
      | inr full ↦
          let rests = ap from (sym full) ∙ e in
          subst (λ (x : Machine × List Invocation). IsApart io x.0) (ok-injective rests) v
    ]

Moves-IsApart :
    (io : ℕ) {m m' : Machine} {is : List Invocation} → Moves m is m' → IsApart io m → IsApart io m'
unfolding leave
Moves-IsApart io {m} (poked before after core is m' waits e) (no_poke, none_runs) =
    let all = ap (count io) waits ∙ count-append io before (core ∷ after) in
    let rest = count-append io before after in
    poke_core-IsApart io core (record m { pokes = before ++ after }) (m', is)
      (λ same. ground (arith, all, no_poke, same)) (ground (arith, all, rest, no_poke), none_runs) e
Moves-IsApart io {m} (ended before after core i runs) (no_poke, none_runs) =
    let all = ap (on_core io) runs ∙ on_core-middle io core i before after in
    (ground (arith, all, no_poke, none_runs), ground (arith, all, none_runs))

-- On a node whose requests all come in on one core, this core never runs an invocation, nor is it ever
-- poked, whatever arrives and in whatever order pokes are run and invocations end.
pub io_core_never_runs :
    {num_cpus limit io : ℕ} {root : InvokerRoot} {m : Machine}
    → 0 < num_cpus
    → ReachOver num_cpus limit io root m
    → (count io m.pokes ≡ 0) × (on_core io m.running ≡ 0)
io_core_never_runs some_cpu start = (refl, refl)
io_core_never_runs {num_cpus} {limit} {io} some_cpu (arrives {m} i m' r e) =
    arrive-IsApart num_cpus io i m m' some_cpu e (io_core_never_runs some_cpu r)
io_core_never_runs {io} some_cpu (moves r move) =
    Moves-IsApart io move (io_core_never_runs some_cpu r)
