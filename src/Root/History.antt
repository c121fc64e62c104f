-- ===== src/Root/History.antt =====
-- Histories of the shared work queue: the calls of `AddWork` and `GetWork` from all cores, in the order
-- in which the lock lets them in.
use seuss.Prelude.{
  ℕ, ◌≡◌, refl, sym, ap, ◌∙◌, subst, append_assoc, append-nil, ◌>>=◌, >>=-eq-ok, false, Option,
  none, some, List, [], ◌∷◌, ◌++◌, arith, Result, ok, nat_eq,
}
use seuss.Invocation.{Invocation}
use seuss.Root.Defs.{InvokerRoot, add_work, get_work}
use seuss.Root.Queue.{IsQueued, view, has_tid, add_work-IsQueued, get_work-IsQueued}
use seuss.Root.Queue.Calls.{
  handed, add_work-view, get_work-view, add_work_fits, get_work_runs, handed-append, has_tid-split,
}

-- A history of the shared queue, from any cores: `AddWork` on core `mine` of `num_cpus`, or `GetWork`.
pub data Call : Type 0 where
  add : (num_cpus mine : ℕ) → Invocation → Call
  get : Call

-- The invocations that the history's calls of `AddWork` accept.
abbrev pub accepted : List Call → List Invocation
accepted [] = []
accepted (add num_cpus mine i ∷ cs) = i ∷ accepted cs
accepted (get ∷ cs) = accepted cs

-- The history's effect, with what its calls of `GetWork` hand out.
unfoldable pub run : InvokerRoot → List Call → Result (List Invocation × InvokerRoot)
run r [] = ok ([], r)
run r (add num_cpus mine i ∷ cs) = do (r', pokes) ← add_work num_cpus mine r i; run r' cs
run r (get ∷ cs) = do (o, r') ← get_work r; (is, r'') ← run r' cs; ok (handed o is, r'')

-- What a history hands out, followed by what is still queued after it, is what was queued before it,
-- followed by what it accepted: nothing is lost, repeated or overtaken.
pub run-fifo :
    (r r' : InvokerRoot) (cs : List Call) (is : List Invocation)
    → IsQueued r
    → run r cs ≡ ok (is, r')
    → is ++ view r' ≡ view r ++ accepted cs
unfolding run
run-fifo r r' [] is v e = ground (arith, append-nil (view r))
run-fifo r r' (add n mine i ∷ cs) is v e =
    let ((r₁, pokes), done, rest) = >>=-eq-ok (add_work n mine r i) _ e in
    run-fifo r₁ r' cs is (add_work-IsQueued n mine r i v done) rest
    ∙ ap (λ l. l ++ accepted cs) (add_work-view n mine r r₁ i pokes v done)
    ∙ append_assoc (view r) (i ∷ []) (accepted cs)
run-fifo r r' (get ∷ cs) is v e =
    let ((o, r₁), done, rest) = >>=-eq-ok (get_work r) _ e in
    let ((is₁, r₂), ran, last) = >>=-eq-ok (run r₁ cs) _ rest in
    let later = run-fifo r₁ r₂ cs is₁ (get_work-IsQueued r v done) ran in
    cc (
      last,
      later,
      handed-append o is₁ (view r₂),
      handed-append o (view r₁) (accepted cs),
      get_work-view r r₁ o v done,
    )

-- No two of the invocations have one transaction id.
abbrev pub HaveOwnTids : List Invocation → Type 0
HaveOwnTids [] = Unit
HaveOwnTids (i ∷ is) = (has_tid i.info.transaction_id is ≡ false) × HaveOwnTids is

has_tid-middle :
    (is js : List Invocation) (i : Invocation)
    → HaveOwnTids (is ++ i ∷ js)
    → has_tid i.info.transaction_id is ≡ false
has_tid-middle [] js i h = refl
has_tid-middle (k ∷ is) js i h =
    ground (arith, has_tid-middle is js i h.1, has_tid-split k.info.transaction_id is js i)

HaveOwnTids-handed :
    (o : Option Invocation) (is : List Invocation) → HaveOwnTids (handed o is) → HaveOwnTids is
HaveOwnTids-handed none is h = h
HaveOwnTids-handed (some i) is h = h.1

-- A history whose invocations, with those queued before it, have transaction ids of their own never
-- stops the machine.
pub run-total :
    (r : InvokerRoot) (cs : List Call)
    → IsQueued r
    → HaveOwnTids (view r ++ accepted cs)
    → (is : List Invocation) × (r' : InvokerRoot) × (run r cs ≡ ok (is, r'))
unfolding run
run-total r [] v own = ([], r, refl)
run-total r (add n mine i ∷ cs) v own =
    let (r₁, pokes, done) =
      add_work_fits n mine r i v (has_tid-middle (view r) (accepted cs) i own) in
    let (is, r', ran) = run-total r₁ cs (add_work-IsQueued n mine r i v done) (
      subst HaveOwnTids
        (sym (
          ap (λ l. l ++ accepted cs) (add_work-view n mine r r₁ i pokes v done)
          ∙ append_assoc (view r) (i ∷ []) (accepted cs)))
        own) in
    (is, r', ground (arith, done, ran))
run-total r (get ∷ cs) v own =
    let (o, r₁, done) = get_work_runs r v in
    let (is, r', ran) = run-total r₁ cs (get_work-IsQueued r v done) (
      HaveOwnTids-handed o (view r₁ ++ accepted cs) (
        subst HaveOwnTids
          (cc (get_work-view r r₁ o v done, handed-append o (view r₁) (accepted cs))) own)) in
    (handed o is, r', ground (arith, done, ran))
