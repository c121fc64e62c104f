-- ===== src/Root/Queue.antt =====
-- The two structures behind the work queue, a map and a queue of ids, are one queue of invocations.
pub mod Calls
use seuss.Prelude.{
  ℕ, ◌%◌, sym, ◌≡◌, refl, subst, ◌>>=◌, Bool, false, ◌||◌, Option, none, some, inl, inr, List, [],
  ◌∷◌, ◌++◌, arith, ◌==◌, if◌then◌else◌, is_some, nat_eq, Result, ok, panic, Bool-cases,
  Option-cases, >>=-eq-ok,
}
use seuss.Table.{Table, find, erase, find-erase, find-cons, erase-cons, emplace_new, emplace_old}
use seuss.Invocation.{Invocation}
use seuss.Root.Defs.{InvokerRoot, poke_cores, add_work, pop_work, get_work}

-- The map holds the queued invocations under their ids, and no others; an id is queued once.
abbrev pub Holds : Table ℕ Invocation → List ℕ → Type 0
Holds m [] = (tid : ℕ) → find tid m ≡ none
Holds m (tid ∷ q) =
    ((i : Invocation) × (find tid m ≡ some i) × (i.info.transaction_id ≡ tid))
    × Holds (erase tid m) q

pub record IsQueued (r : InvokerRoot) : Type 0 where
  pub holds : Holds r.request_map r.request_queue

-- The abstract queue: the invocations in the order of their ids.
abbrev pub pending : Table ℕ Invocation → List ℕ → List Invocation
pending m [] = []
pending m (tid ∷ q) = elim (find tid m) [
  | none ↦ pending (erase tid m) q
  | some i ↦ i ∷ pending (erase tid m) q
]

abbrev pub view : InvokerRoot → List Invocation
view r = pending r.request_map r.request_queue

abbrev pub has_tid : ℕ → List Invocation → Bool
has_tid tid [] = false
has_tid tid (i ∷ is) = i.info.transaction_id == tid || has_tid tid is

-- What is queued is what the map has.
pub find-pending :
    (k : ℕ) (m : Table ℕ Invocation) (q : List ℕ)
    → Holds m q
    → is_some (find k m) ≡ has_tid k (pending m q)
find-pending k m [] h = rw (h k)
find-pending k m (t ∷ q) ((i, e, n), h) =
    ground (arith, find-pending k (erase t m) q h, find-erase t k m)

module _ (i : Invocation) where
  added : Table ℕ Invocation → Table ℕ Invocation
  added m = (i.info.transaction_id, i) ∷ m

  Holds-append :
      (m : Table ℕ Invocation) (q : List ℕ)
      → Holds m q
      → find i.info.transaction_id m ≡ none
      → Holds (added m) (q ++ i.info.transaction_id ∷ [])
  unfolding added
  Holds-append m [] h new =
      let tid = i.info.transaction_id in
      (
        (i, ground (arith, find-cons tid tid i m), refl),
        λ t. ground (arith, erase-cons tid tid i m, find-erase tid t m, h t),
      )
  Holds-append m (t ∷ q) ((j, e, n), h) new =
      let tid = i.info.transaction_id in
      (
        (j, ground (arith, find-cons tid t i m), n),
        subst (λ k. Holds k (q ++ tid ∷ [])) (ground (arith, erase-cons tid t i m))
            (Holds-append (erase t m) q h (ground (arith, find-erase t tid m))),
      )

  pending-append :
      (m : Table ℕ Invocation) (q : List ℕ)
      → Holds m q
      → find i.info.transaction_id m ≡ none
      → pending (added m) (q ++ i.info.transaction_id ∷ []) ≡ pending m q ++ i ∷ []
  unfolding added
  pending-append m [] h new =
      let tid = i.info.transaction_id in ground (arith, find-cons tid tid i m)
  pending-append m (t ∷ q) ((j, e, n), h) new =
      let tid = i.info.transaction_id in
      ground (
        arith,
        find-cons tid t i m,
        erase-cons tid t i m,
        find-erase t tid m,
        pending-append (erase t m) q h,
      )

-- The operations of the abstract queue: an id that is queued is refused, and a dequeue takes the
-- oldest entry.
abbrev pub enqueue : List Invocation → Invocation → Result (List Invocation)
enqueue is i = if has_tid i.info.transaction_id is then panic else ok (is ++ i ∷ [])

abbrev pub dequeue : List Invocation → Option Invocation × List Invocation
dequeue [] = (none, [])
dequeue (i ∷ is) = (some i, is)

abbrev pub enqueued : InvokerRoot → Invocation → InvokerRoot
enqueued r i = record r {
  request_map = (i.info.transaction_id, i) ∷ r.request_map;
  request_queue = r.request_queue ++ i.info.transaction_id ∷ [];
}

module _ (num_cpus mine : ℕ) (r : InvokerRoot) (i : Invocation) where
  pub add_work_new :
      find i.info.transaction_id r.request_map ≡ none
      → add_work num_cpus mine r i
        ≡ ok (enqueued r i, poke_cores num_cpus mine (i.info.transaction_id % num_cpus) num_cpus 0)
  unfolding add_work
  add_work_new new = rw (emplace_new i.info.transaction_id i r.request_map new)

  add_work_old :
      {j : Invocation}
      → find i.info.transaction_id r.request_map ≡ some j
      → add_work num_cpus mine r i ≡ panic
  unfolding add_work
  add_work_old {j} old = rw (emplace_old i.info.transaction_id i j r.request_map old)

  -- Seen as a queue of invocations, `AddWork` appends the invocation, and stops the machine exactly
  -- when an invocation with this transaction id is still queued.
  pub add_work-refines :
      IsQueued r → (add_work num_cpus mine r i >>= λ x. ok (view x.0)) ≡ enqueue (view r) i
  unfolding added
  add_work-refines v =
      let known = find-pending i.info.transaction_id r.request_map r.request_queue v.holds in
      elim (Option-cases (find i.info.transaction_id r.request_map)) [
        | inl new ↦ ground (
          arith,
          known,
          add_work_new new,
          pending-append i r.request_map r.request_queue v.holds new,
        )
        | inr (j, old) ↦ ground (arith, known, add_work_old old)
      ]

  pub add_work-IsQueued :
      {r' : InvokerRoot} {pokes : List ℕ}
      → IsQueued r
      → add_work num_cpus mine r i ≡ ok (r', pokes)
      → IsQueued r'
  unfolding added
  add_work-IsQueued {r'} v e = elim (Option-cases (find i.info.transaction_id r.request_map)) [
    | inl new ↦
        subst IsQueued {x = enqueued r i} (ground (arith, add_work_new new))
          (record { holds = Holds-append i r.request_map r.request_queue v.holds new })
    | inr (j, old) ↦ cc (add_work_old old)
  ]

module _ (r : InvokerRoot) where
  pop_work-refines :
      (q : List ℕ)
      → r.request_queue ≡ q
      → Holds r.request_map q
      → (pop_work q r >>= λ x. ok (x.0, view x.1)) ≡ ok (dequeue (pending r.request_map q))
  unfolding pop_work
  pop_work-refines [] e h = ground arith
  pop_work-refines (tid ∷ rest) e ((i, found, n), h) = ground arith

  pop_work-IsQueued :
      (q : List ℕ) {o : Option Invocation} {r' : InvokerRoot}
      → r.request_queue ≡ q
      → Holds r.request_map q
      → pop_work q r ≡ ok (o, r')
      → IsQueued r'
  unfolding pop_work
  pop_work-IsQueued [] {o} {r'} e h done =
      subst IsQueued {x = r} (ground arith)
        (record { holds = subst (Holds r.request_map) (sym e) h })
  pop_work-IsQueued (tid ∷ rest) {o} {r'} e ((i, found, n), h) done =
      subst IsQueued {x = record r { request_map = erase tid r.request_map; request_queue = rest }}
        (ground arith) (record { holds = h })

  -- Seen as a queue of invocations, `GetWork` takes the oldest one, or finds the queue empty; it never
  -- stops the machine.
  pub get_work-refines :
      IsQueued r → (get_work r >>= λ x. ok (x.0, view x.1)) ≡ ok (dequeue (view r))
  unfolding get_work
  get_work-refines v = pop_work-refines r.request_queue refl v.holds

  pub get_work-IsQueued :
      {o : Option Invocation} {r' : InvokerRoot}
      → IsQueued r
      → get_work r ≡ ok (o, r')
      → IsQueued r'
  unfolding get_work
  get_work-IsQueued v = pop_work-IsQueued r.request_queue refl v.holds
