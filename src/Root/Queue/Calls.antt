-- ===== src/Root/Queue/Calls.antt =====
-- The calls of the work queue, one at a time, in terms of the abstract queue.
use seuss.Prelude.{
  sym, ap, ◌%◌, ◌∙◌, ◌>>=◌, Result, ok-injective, ℕ, ◌≡◌, refl, Bool, false, Option, none, some,
  inl, inr, List, [], ◌∷◌, ◌++◌, arith, ◌==◌, nat_eq, ok, Bool-cases, Option-cases, >>=-eq-ok,
}
use seuss.Table.{Table, find}
use seuss.Invocation.{Invocation}
use seuss.Root.Defs.{InvokerRoot, poke_cores, add_work, get_work, pop_work}
use seuss.Root.Queue.{
  IsQueued, view, has_tid, find-pending, enqueue, dequeue, enqueued, add_work_new, add_work-refines,
  get_work-refines,
}

-- The same for one successful call.
pub add_work-view :
    (num_cpus mine : ℕ) (r r' : InvokerRoot) (i : Invocation) (pokes : List ℕ)
    → IsQueued r
    → add_work num_cpus mine r i ≡ ok (r', pokes)
    → view r' ≡ view r ++ i ∷ []
add_work-view num_cpus mine r r' i pokes v e =
    let known = add_work-refines num_cpus mine r i v in
    let seen : (ok (view r') ≡ enqueue (view r) i) = cc in
    elim (Bool-cases (has_tid i.info.transaction_id (view r))) [
      | inl old ↦ ground (arith, seen)
      | inr new ↦ ground (arith, seen)
    ]

abbrev pub handed : Option Invocation → List Invocation → List Invocation
handed none is = is
handed (some i) is = i ∷ is

handed-dequeue : (is : List Invocation) → handed (dequeue is).0 (dequeue is).1 ≡ is
handed-dequeue [] = refl
handed-dequeue (i ∷ is) = refl

pub handed-append :
    (o : Option Invocation) (is js : List Invocation) → handed o is ++ js ≡ handed o (is ++ js)
handed-append none is js = refl
handed-append (some i) is js = refl

pub get_work-view :
    (r r' : InvokerRoot) (o : Option Invocation)
    → IsQueued r
    → get_work r ≡ ok (o, r')
    → handed o (view r') ≡ view r
get_work-view r r' o v e =
    let known = get_work-refines r v in
    let seen : (ok (o, view r') ≡ ok (dequeue (view r))) = cc in cc (seen, handed-dequeue (view r))

pub has_tid-split :
    (k : ℕ) (is js : List Invocation) (i : Invocation)
    → has_tid k (is ++ i ∷ js) ≡ false
    → (i.info.transaction_id == k) ≡ false
has_tid-split k [] js i h = ground arith
has_tid-split k (x ∷ is) js i h = has_tid-split k is js i (ground arith)

pub add_work_fits :
    (num_cpus mine : ℕ) (r : InvokerRoot) (i : Invocation)
    → IsQueued r
    → has_tid i.info.transaction_id (view r) ≡ false
    → (r' : InvokerRoot) × (pokes : List ℕ) × (add_work num_cpus mine r i ≡ ok (r', pokes))
add_work_fits num_cpus mine r i v new =
    let known = find-pending i.info.transaction_id r.request_map r.request_queue v.holds in
    elim (Option-cases (find i.info.transaction_id r.request_map)) [
      | inl absent ↦ (enqueued r i, _, add_work_new num_cpus mine r i absent)
      | inr (j, old) ↦ cc (known, old, new)
    ]

pub get_work_runs :
    (r : InvokerRoot)
    → IsQueued r
    → (o : Option Invocation) × (r' : InvokerRoot) × (get_work r ≡ ok (o, r'))
get_work_runs r v =
    let ((o, r'), e, _) = >>=-eq-ok (get_work r) _ (get_work-refines r v) in (o, r', e)

-- What the work queue leaves alone.
abbrev pub caches : InvokerRoot → Bool × ℕ × ℕ × Table ℕ ℕ
caches r = (r.is_bootstrapped, r.base_um_env, r.preinit_env, r.snapmap)

pub add_work-caches :
    (num_cpus mine : ℕ) (r r' : InvokerRoot) (i : Invocation) (pokes : List ℕ)
    → add_work num_cpus mine r i ≡ ok (r', pokes)
    → caches r' ≡ caches r
unfolding add_work
add_work-caches num_cpus mine r r' i pokes e = ground (arith, e)

pub get_work-caches :
    (r r' : InvokerRoot) (o : Option Invocation) → get_work r ≡ ok (o, r') → caches r' ≡ caches r
unfolding get_work pop_work
get_work-caches r r' o e = by_queue r.request_queue e
  where
    by_queue : (q : List ℕ) → pop_work q r ≡ ok (o, r') → caches r' ≡ caches r
    by_queue [] e = ground (arith, e)
    by_queue (tid ∷ rest) e = ground (arith, e)

-- `GetWork` in terms of the abstract queue.
pub work_taken :
    (r : InvokerRoot) (o : Option Invocation) (r' : InvokerRoot)
    → IsQueued r
    → get_work r ≡ ok (o, r')
    → ◌≡◌ {A = Option Invocation × List Invocation} (o, view r') (dequeue (view r))
work_taken r o r' v e = ok-injective (
    sym (ap (λ (m : Result (Option Invocation × InvokerRoot)). m >>= λ x. ok (x.0, view x.1)) e)
    ∙ get_work-refines r v)

pub dequeue-none :
    (is js : List Invocation)
    → ◌≡◌ {A = Option Invocation × List Invocation} (none, js) (dequeue is)
    → (is ≡ []) × (js ≡ [])
dequeue-none [] js e = (refl, ap (λ x. x.1) e)
dequeue-none (i ∷ is) js e = cc e

pub dequeue-some :
    (is js : List Invocation) (i : Invocation)
    → ◌≡◌ {A = Option Invocation × List Invocation} (some i, js) (dequeue is)
    → i ∷ js ≡ is
dequeue-some [] js i e = cc e
dequeue-some (j ∷ is) js i e = cc e

pub add_work-pokes :
    (num_cpus mine : ℕ) (r r' : InvokerRoot) (i : Invocation) (pokes : List ℕ)
    → add_work num_cpus mine r i ≡ ok (r', pokes)
    → pokes ≡ poke_cores num_cpus mine (i.info.transaction_id % num_cpus) num_cpus 0
unfolding add_work
add_work-pokes num_cpus mine r r' i pokes e = ground (arith, e)
