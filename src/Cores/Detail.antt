-- ===== src/Cores/Detail.antt =====
-- `Poke` of one core in full, and what the steps of the cores make of it.
use seuss.Prelude.{
  ℕ, ◌+◌, ◌%◌, ◌≡◌, refl, ap, subst, ◌∙◌, Bool, true, false, Bool-cases, Option, none, some, inl,
  inr, List, [], ◌∷◌, nat_eq, ◌==◌, beq_self, ok, >>=-eq-ok, ok-injective, length,
}
use seuss.Invocation.{Invocation}
use seuss.Root.Defs.{InvokerRoot, get_work}
use seuss.Hot.Defs.{HotCache}
use seuss.Invoker.Defs.{has_capacity, end_invoke}
use seuss.Invoker.Starts.{
  Node, Event, Tried, declined, waits, finished, conclude, or_else, invoke, process_hot_start,
}
use seuss.Invoker.Attempts.{begun, after_invoke}
use seuss.Invoker.Poke.{Poked, rests, runs, poke, run_work}
use seuss.Invoker.Kept.{
  Part, part_of, part, undisturbed, process_hot_start-part, process_warm_start-part,
  process_cold_start-part, or_else-part,
}
use seuss.Cores.Defs.{Machine, take_up, poke_core, leave}

-- The part of the node that the core sees.
abbrev pub seen : (core : ℕ) → Machine → Part
seen core m = part_of m.root (m.counters core)

-- How an invocation has left the node that it started on.
abbrev IsTaken : Node → Tried → Type 0
IsTaken n (finished b, n', outs) = part n' ≡ part (after_invoke (begun n))
IsTaken n (waits, n', outs) = part n' ≡ part (begun n)
IsTaken n (declined, n', outs) = ⊥

-- A core that rests has seen the step that starts nothing, one that waits for its invocation the step that starts one,
-- and one whose invocation has ended also the step at its end.
abbrev pub IsStep : (core : ℕ) → Machine → List Invocation → Poked → Type 0
IsStep core m is (rests n') = (is ≡ []) × (part n' ≡ seen core m)
IsStep core m is (runs (finished b, n', outs)) =
    (length is ≡ 1) × (part n' ≡ seen core (leave core m))
IsStep core m is (runs (waits, n', outs)) = (length is ≡ 1) × (part n' ≡ seen core m)
IsStep core m is (runs (declined, n', outs)) = ⊥

module _ (known : ℕ → Bool) (num_cpus mine warm_id cold_id : ℕ)
    (hot_es warm_es cold_es : List Event) (calm_hot : undisturbed hot_es ≡ true)
    (calm_warm : undisturbed warm_es ≡ true) (calm_cold : undisturbed cold_es ≡ true) where
  conclude-IsTaken :
      (n : Node) (t t' : Tried)
      → part t.1 ≡ part (begun n)
      → conclude known num_cpus mine t ≡ ok t'
      → IsTaken n t'
  unfolding conclude end_invoke
  conclude-IsTaken n (finished true, n₁, outs) t' same e =
      subst (IsTaken n) (ok-injective e)
        (ap (λ (p : Part). (p.0, p.1, (p.2 + 255) % 256, p.3, p.4)) same)
  conclude-IsTaken n (waits, n₁, outs) t' same e = subst (IsTaken n) (ok-injective e) same
  conclude-IsTaken n (finished false, n₁, outs) t' same e = absurd (cc e)
  conclude-IsTaken n (declined, n₁, outs) t' same e = absurd (cc e)

  invoke-IsTaken :
      (i : Invocation) (n : Node) (t : Tried)
      → invoke known num_cpus mine warm_id cold_id hot_es warm_es cold_es i n ≡ ok t
      → IsTaken n t
  unfolding invoke
  invoke-IsTaken i n t e =
      let (hot, by_hot, rest) =
        >>=-eq-ok (process_hot_start known num_cpus mine hot_es i (begun n)) _ e in
      let (warm, by_warm, rest') = >>=-eq-ok (or_else known num_cpus mine hot _) _ rest in
      let (cold, by_cold, end) = >>=-eq-ok (or_else known num_cpus mine warm _) _ rest' in
      let after_hot =
        process_hot_start-part known num_cpus mine hot_es i (begun n) hot calm_hot by_hot in
      let after_warm =
        or_else-part known num_cpus mine (begun n) hot warm _ after_hot
          (λ n₁ t₁ tried.
            process_warm_start-part known num_cpus mine warm_id warm_es i n₁ t₁ calm_warm tried)
          by_warm in
      let after_cold =
        or_else-part known num_cpus mine (begun n) warm cold _ after_warm
          (λ n₁ t₁ tried.
            process_cold_start-part known num_cpus mine cold_id cold_es i n₁ t₁ calm_cold tried)
          by_cold in
      conclude-IsTaken n cold t after_cold end

  run_work-IsStep :
      (core : ℕ) (hot : HotCache) (m : Machine) (work : Option Invocation × InvokerRoot) (p : Poked)
      → run_work known num_cpus mine warm_id cold_id hot_es warm_es cold_es work
          (record { root = m.root; hot = hot; counters = m.counters core })
        ≡ ok p
      → IsStep core (take_up core work m).0 (take_up core work m).1 p
  unfolding run_work take_up leave
  run_work-IsStep core hot m (none, root) p e =
      subst (IsStep core (record m { root = root }) []) (ok-injective e) (refl, refl)
  run_work-IsStep core hot m (some i, root) p e =
      let n : Node = record { root = root; hot = hot; counters = m.counters core } in
      let (t, invoked, ends) =
        >>=-eq-ok (invoke known num_cpus mine warm_id cold_id hot_es warm_es cold_es i n) _ e in
      let m₁ = (take_up core (some i, root) m).0 in
      subst (IsStep core m₁ (i ∷ [])) (ok-injective ends) (
        as_step core m₁ i n t (took core m i root hot) (left_it core m i root hot)
          (invoke-IsTaken i n t invoked))
    where
      here : (c : ℕ) → (c == c) ≡ true
      here c = beq_self c

      took :
          (core : ℕ) (m : Machine) (i : Invocation) (root : InvokerRoot) (hot : HotCache)
          → part (begun (record { root = root; hot = hot; counters = m.counters core }))
            ≡ seen core (take_up core (some i, root) m).0
      took core m i root hot = rw (here core) refl

      left_it :
          (core : ℕ) (m : Machine) (i : Invocation) (root : InvokerRoot) (hot : HotCache)
          → part
              (after_invoke (begun (record { root = root; hot = hot; counters = m.counters core })))
            ≡ seen core (leave core (take_up core (some i, root) m).0)
      left_it core m i root hot = rw (here core) refl

      as_step :
          (core : ℕ) (m₁ : Machine) (i : Invocation) (n : Node) (t : Tried)
          → part (begun n) ≡ seen core m₁
          → part (after_invoke (begun n)) ≡ seen core (leave core m₁)
          → IsTaken n t
          → IsStep core m₁ (i ∷ []) (runs t)
      as_step core m₁ i n (finished b, n', outs) started ended taken = (refl, taken ∙ ended)
      as_step core m₁ i n (waits, n', outs) started ended taken = (refl, taken ∙ started)
      as_step core m₁ i n (declined, n', outs) started ended taken = absurd taken

  -- The steps of the cores say what `Poke` does, if nothing interferes with it: where it returns, on a core
  -- with any cache of idle instances, the step of that core is one too, and the work queue and the counters of
  -- the core, the port aside, are as the step leaves them if the core rests or waits for its invocation, and
  -- as the end of the invocation leaves them after the step, if the invocation has ended.
  pub poke-IsStep :
      (core : ℕ) (hot : HotCache) (m : Machine) (p : Poked)
      → poke known num_cpus mine warm_id cold_id hot_es warm_es cold_es
          (record { root = m.root; hot = hot; counters = m.counters core })
        ≡ ok p
      → (m₁ : Machine) × (is : List Invocation) × (poke_core core m ≡ ok (m₁, is))
        × IsStep core m₁ is p
  unfolding poke poke_core
  poke-IsStep core hot m p e = elim (Bool-cases (has_capacity (m.counters core))) [
    | inl free ↦
        let (work, got, rest) = >>=-eq-ok (get_work m.root) _ (rw free at e) in
        (
          (take_up core work m).0,
          (take_up core work m).1,
          rw (free, got) refl,
          run_work-IsStep core hot m work p rest,
        )
    | inr full ↦
        (m, [], rw full refl, subst (IsStep core m []) (ok-injective (rw full at e)) (refl, refl))
  ]
