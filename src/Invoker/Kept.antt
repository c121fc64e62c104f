-- ===== src/Invoker/Kept.antt =====
-- What an attempt of `Invoke` leaves alone: the work queue of the node, and the counters of the core but for the port.
use seuss.Prelude.{
  ℕ, ◌≡◌, refl, sym, subst, ◌∙◌, Bool, true, false, not, Bool-cases, Option-cases, inl, inr, List,
  [], ◌∷◌, nat_eq, ◌==◌, ◌||◌, Bytes, Result, ok, >>=-eq-ok, ok-injective, arith,
}
use seuss.Table.{Table}
use seuss.Invocation.{InvocationStats, Invocation}
use seuss.Root.Defs.{InvokerRoot, get_base_sv, get_snapshot, cache_is_full, set_snapshot}
use seuss.Root.Snapshots.{set_snapshot_lem}
use seuss.Hot.Defs.{hot_instances_are_enabled, hot_instance_exists, get_hot_instance}
use seuss.Session.History.{step}
use seuss.Invoker.Defs.{Counters, Output, get_internal_port, callback}
use seuss.Invoker.Starts.{
  Node, Event, handler, calls_back, captured, interferes, Job, event, events, Tried, declined,
  waits, finished, run_attempt, process_hot_start, process_warm_start, process_cold_start, or_else,
}
use seuss.Invoker.Attempts.{first_job}

-- The queue, and the counters but for the port.
abbrev pub Part : Type 0
Part = Table ℕ Invocation × List ℕ × ℕ × ℕ × ℕ

abbrev pub part_of : InvokerRoot → Counters → Part
part_of r c =
    (r.request_map, r.request_queue, c.request_concurrency, c.request_concurrency_limit, c.invctr)

abbrev pub part : Node → Part
part n = part_of n.root n.counters

-- No other invocation and no other core gets in between.
abbrev pub undisturbed : List Event → Bool
undisturbed [] = true
undisturbed (interferes n ∷ es) = false
undisturbed (handler c ∷ es) = undisturbed es
undisturbed (calls_back now p ∷ es) = undisturbed es
undisturbed (captured sv ∷ es) = undisturbed es

same_part :
    (n : Node) (j j' : Job) (outs outs' : List Output)
    → ◌≡◌ {A = Result (Job × List Output)} (ok (j, outs)) (ok (j', outs'))
    → part j.node ≡ part n
    → part j'.node ≡ part n
same_part n j j' outs outs' e same =
    subst (λ (x : Job × List Output). part x.0.node ≡ part n) (ok-injective e) same

set_snapshot-queue :
    (r r' : InvokerRoot) (fid sv : ℕ) (saved : Bool) (deleted : List ℕ) (c : Counters)
    → set_snapshot r fid sv ≡ ok (r', saved, deleted)
    → part_of r' c ≡ part_of r c
unfolding set_snapshot
set_snapshot-queue r r' fid sv saved deleted c e = elim (Bool-cases r.is_bootstrapped) [
  | inl booted ↦
      subst (λ (x : InvokerRoot × Bool × List ℕ). part_of x.0 c ≡ part_of r c)
        (ok-injective (sym (set_snapshot_lem r fid sv booted) ∙ e)) (ground arith)
  | inr new ↦ absurd (ground (arith, new, e))
]

event-part :
    (known : ℕ → Bool) (checkpoint : Bool) (e : Event) (j j' : Job) (outs : List Output)
    → undisturbed (e ∷ []) ≡ true
    → event known checkpoint e j ≡ ok (j', outs)
    → part j'.node ≡ part j.node
unfolding event
event-part known checkpoint (handler c) j j' outs calm e =
    let ((session, acts), done, rest) = >>=-eq-ok (step j.attempt.session c) _ e in
    same_part j.node _ j' _ outs rest refl
event-part known checkpoint (calls_back now p) j j' outs calm e =
    let ((attempt, hot, some_outs), done, rest) =
      >>=-eq-ok (callback known now p j.attempt j.node.hot) _ e in
    same_part j.node _ j' _ outs rest refl
event-part known checkpoint (interferes n) j j' outs calm e = absurd (cc calm)
event-part known false (captured sv) j j' outs calm e = same_part j.node j j' [] outs e refl
event-part known true (captured sv) j j' outs calm e =
    let ((root, saved, deleted), set, rest) =
      >>=-eq-ok (set_snapshot j.node.root j.attempt.fid sv) _ e in
    same_part j.node _ j' _ outs rest
      (set_snapshot-queue j.node.root root j.attempt.fid sv saved deleted j.node.counters set)

undisturbed-cons :
    (e : Event) (es : List Event)
    → undisturbed (e ∷ es) ≡ true
    → (undisturbed (e ∷ []) ≡ true) × (undisturbed es ≡ true)
undisturbed-cons (handler c) es calm = (refl, calm)
undisturbed-cons (calls_back now p) es calm = (refl, calm)
undisturbed-cons (captured sv) es calm = (refl, calm)
undisturbed-cons (interferes n) es calm = absurd (cc calm)

events-part :
    (known : ℕ → Bool) (checkpoint : Bool) (es : List Event) (j j' : Job) (outs : List Output)
    → undisturbed es ≡ true
    → events known checkpoint es j ≡ ok (j', outs)
    → part j'.node ≡ part j.node
unfolding events
events-part known checkpoint [] j j' outs calm e = same_part j.node j j' [] outs e refl
events-part known checkpoint (e ∷ es) j j' outs calm h =
    let (first, others) = undisturbed-cons e es calm in
    let ((j₁, some_outs), done, rest) = >>=-eq-ok (event known checkpoint e j) _ h in
    let ((j₂, more), later, ends) = >>=-eq-ok (events known checkpoint es j₁) _ rest in
    same_part j.node j₂ j' _ outs ends (
      events-part known checkpoint es j₁ j₂ more others later
      ∙ event-part known checkpoint e j j₁ some_outs first done)

module _ (known : ℕ → Bool) (num_cpus mine : ℕ) where
  tried_part : (n : Node) (t t' : Tried) → ok t ≡ ok t' → part t.1 ≡ part n → part t'.1 ≡ part n
  tried_part n t t' e same = subst (λ (x : Tried). part x.1 ≡ part n) (ok-injective e) same

  run_attempt-part :
      (checkpoint : Bool) (es : List Event) (i : Invocation) (istats : InvocationStats) (umi_id : ℕ)
      (code : Bytes) (prepare : (port : ℕ) → List Output) (n : Node) (t : Tried)
      → undisturbed es ≡ true
      → run_attempt known num_cpus mine checkpoint es i istats umi_id code prepare n ≡ ok t
      → part t.1 ≡ part n
  unfolding run_attempt get_internal_port
  run_attempt-part checkpoint es i istats umi_id code prepare n t calm e =
      let start = first_job num_cpus mine i istats umi_id code n in
      let ((j, outs), done, ends) = >>=-eq-ok (events known checkpoint es start) _ e in
      tried_part n _ t ends (events-part known checkpoint es start j outs calm done)

  pub process_hot_start-part :
      (es : List Event) (i : Invocation) (n : Node) (t : Tried)
      → undisturbed es ≡ true
      → process_hot_start known num_cpus mine es i n ≡ ok t
      → part t.1 ≡ part n
  unfolding process_hot_start
  process_hot_start-part es i n t calm e =
      elim (Bool-cases (not (hot_instances_are_enabled n.hot))) [
        | inl off ↦ tried_part n (declined, n, []) t (rw off at e) refl
        | inr on ↦ elim (Bool-cases (not (hot_instance_exists n.hot i.info.function_id))) [
          | inl missing ↦ tried_part n (declined, n, []) t (rw missing at (rw on at e)) refl
          | inr there ↦
              let ((umi_id, hot), got, rest) =
                >>=-eq-ok (get_hot_instance n.hot i.info.function_id) _
                  (rw there at (rw on at e)) in
              elim (Bool-cases (umi_id == 0 || not (known umi_id))) [
                | inl gone ↦
                    tried_part n (declined, record n { hot = hot }, []) t (rw gone at rest) refl
                | inr good ↦
                    run_attempt-part false es i i.info umi_id [] _ (record n { hot = hot }) t calm
                      (rw good at rest)
              ]
        ]
      ]

  pub process_warm_start-part :
      (warm_id : ℕ) (es : List Event) (i : Invocation) (n : Node) (t : Tried)
      → undisturbed es ≡ true
      → process_warm_start known num_cpus mine warm_id es i n ≡ ok t
      → part t.1 ≡ part n
  unfolding process_warm_start
  process_warm_start-part warm_id es i n t calm e =
      let (cached, got, rest) = >>=-eq-ok (get_snapshot n.root i.info.function_id) _ e in
      elim (Option-cases cached) [
        | inl missing ↦ tried_part n (declined, n, []) t (rw missing at rest) refl
        | inr (sv, there) ↦ run_attempt-part false es i _ warm_id [] _ n t calm (rw there at rest)
      ]

  pub process_cold_start-part :
      (cold_id : ℕ) (es : List Event) (i : Invocation) (n : Node) (t : Tried)
      → undisturbed es ≡ true
      → process_cold_start known num_cpus mine cold_id es i n ≡ ok t
      → part t.1 ≡ part n
  unfolding process_cold_start
  process_cold_start-part cold_id es i n t calm e =
      let (base, got, rest) = >>=-eq-ok (get_base_sv n.root) _ e in
      run_attempt-part (not (cache_is_full n.root)) es i i.info cold_id i.code _ n t calm rest

  pub or_else-part :
      (n : Node) (t t' : Tried) (try : Node → Result Tried)
      → part t.1 ≡ part n
      → ((n₁ : Node) (t₁ : Tried) → try n₁ ≡ ok t₁ → part t₁.1 ≡ part n₁)
      → or_else known num_cpus mine t try ≡ ok t'
      → part t'.1 ≡ part n
  unfolding or_else
  or_else-part n (finished true, n₁, outs) t' try same keeps e = tried_part n _ t' e same
  or_else-part n (waits, n₁, outs) t' try same keeps e = tried_part n _ t' e same
  or_else-part n (declined, n₁, outs) t' try same keeps e =
      let (t₁, tried, ends) = >>=-eq-ok (try n₁) _ e in
      tried_part n _ t' ends (keeps n₁ t₁ tried ∙ same)
  or_else-part n (finished false, n₁, outs) t' try same keeps e =
      let (t₁, tried, ends) = >>=-eq-ok (try n₁) _ e in
      tried_part n _ t' ends (keeps n₁ t₁ tried ∙ same)
