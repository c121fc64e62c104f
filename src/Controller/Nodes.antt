-- ===== src/Controller/Nodes.antt =====
-- The nodes of the front end: which of them the activations go to, while nodes register, activations are
-- scheduled and results come in (src/SeussController.cc, and the registration of a new instance in
-- src/dsys/Controller.cc).
use seuss.Prelude.{
  ℕ, ◌≡◌, ap, some, inl, inr, List, [], ◌∷◌, ◌++◌, nat_eq, bytes_eq, Bytes, Result, ok, ◌>>=◌,
  >>=-eq-ok, ok-injective, beq_self, subst, arith, Option-cases,
}
use seuss.Prelude.Int.{ℤ}
use seuss.Table.{find, emplace, find-emplace}
use seuss.Invocation.{InvocationStats}
use seuss.Openwhisk.Msg.{ActivationMessage}
use seuss.Controller.Defs.{
  Controller, Outgoing, cpu_index, cpu_of, front, register_node, schedule_with_code,
  resolve_activation, resolve_record,
}

-- A new instance has its network id, an activation is scheduled, or a result comes in.
pub data Happening : Type 0 where
  registers : (nid : ℕ) → Happening
  schedules : (now promise : ℕ) → ActivationMessage → (code : Bytes) → Happening
  resolves : (now : ℕ) → InvocationStats → (res : Bytes) → Happening

-- What goes out to one node, over one core.
abbrev pub AllTo : (nid cpu : ℕ) → List Outgoing → Type 0
AllTo nid cpu [] = Unit
AllTo nid cpu (out ∷ outs) = (out.nid ≡ nid) × (out.cpu ≡ cpu) × AllTo nid cpu outs

AllTo-append :
    (nid cpu : ℕ) (sent more : List Outgoing)
    → AllTo nid cpu sent
    → AllTo nid cpu more
    → AllTo nid cpu (sent ++ more)
AllTo-append nid cpu [] more a b = b
AllTo-append nid cpu (out ∷ sent) more (n, k, a) b = (n, k, AllTo-append nid cpu sent more a b)

module _ (hash : Bytes → ℕ) (nid_text : ℕ → Bytes) (instance₀ status₀ : ℤ) (cpu_num : ℕ) where
  unfoldable pub happens : Happening → Controller → Result (Controller × List Outgoing)
  happens (registers nid) c = ok (register_node hash nid_text cpu_num c nid, [])
  happens (schedules now promise am code) c = do
    (c', out) ← schedule_with_code hash nid_text now promise c am code
    ok (c', out ∷ [])
  happens (resolves now istats res) c =
      ok ((resolve_activation instance₀ status₀ now c istats res).0, [])

  unfoldable pub all_happen : List Happening → Controller → Result (Controller × List Outgoing)
  unfolding happens
  all_happen [] c = ok (c, [])
  all_happen (h ∷ hs) c = do
    (c', sent) ← happens h c
    (c'', more) ← all_happen hs c'
    ok (c'', sent ++ more)

  -- The node is the first one, and the front end has a core for it.
  abbrev IsFirst : (nid cpu : ℕ) → Controller → Type 0
  IsFirst nid cpu c =
      ((nids : List ℕ) × (c.nids ≡ nid ∷ nids))
      × (find (nid_text nid) c.front_end_cpus_map ≡ some cpu)

  register_node-IsFirst :
      (nid cpu new : ℕ) (c : Controller)
      → IsFirst nid cpu c
      → IsFirst nid cpu (register_node hash nid_text cpu_num c new)
  unfolding register_node
  register_node-IsFirst nid cpu new c ((nids, first), at) = (
    (nids ++ new ∷ [], ap (λ l. l ++ new ∷ []) first),
    find-emplace (nid_text new) (nid_text nid) _ cpu c.front_end_cpus_map at,
  )

  schedule-IsFirst :
      (nid cpu now promise : ℕ) (c c' : Controller) (am : ActivationMessage) (code : Bytes)
      (out : Outgoing)
      → schedule_with_code hash nid_text now promise c am code ≡ ok (c', out)
      → IsFirst nid cpu c
      → IsFirst nid cpu c' × (out.nid ≡ nid) × (out.cpu ≡ cpu)
  unfolding schedule_with_code front cpu_of
  schedule-IsFirst nid cpu now promise c c' am code out e ((nids, first), at) = (
    ((nids, ground (arith, e, first, at)), ground (arith, e, first, at)),
    ground (arith, e, first, at),
    ground (arith, e, first, at),
  )

  resolve-IsFirst :
      (nid cpu now : ℕ) (c : Controller) (istats : InvocationStats) (res : Bytes)
      → IsFirst nid cpu c
      → IsFirst nid cpu (resolve_activation instance₀ status₀ now c istats res).0
  unfolding resolve_activation resolve_record
  resolve-IsFirst nid cpu now c istats res ((nids, first), at) =
      elim (Option-cases (find istats.transaction_id c.record_map)) [
        | inl unknown ↦ ((nids, ground (arith, first, unknown)), ground (arith, at, unknown))
        | inr (entry, known) ↦ ((nids, ground (arith, first, known)), ground (arith, at, known))
      ]

  -- The same for what a call leaves and sends.
  abbrev Goes : (nid cpu : ℕ) → Controller × List Outgoing → Type 0
  Goes nid cpu (c, sent) = IsFirst nid cpu c × AllTo nid cpu sent

  happens-Goes :
      (nid cpu : ℕ) (h : Happening) (c : Controller) (r : Controller × List Outgoing)
      → IsFirst nid cpu c
      → happens h c ≡ ok r
      → Goes nid cpu r
  unfolding happens
  happens-Goes nid cpu (registers new) c r first e =
      subst (Goes nid cpu) (ok-injective e) (register_node-IsFirst nid cpu new c first, tt)
  happens-Goes nid cpu (schedules now promise am code) c r first e =
      let ((c', out), done, rest) =
        >>=-eq-ok (schedule_with_code hash nid_text now promise c am code) _ e in
      let (first', n, k) = schedule-IsFirst nid cpu now promise c c' am code out done first in
      subst (Goes nid cpu) (ok-injective rest) (first', (n, k, tt))
  happens-Goes nid cpu (resolves now istats res) c r first e =
      subst (Goes nid cpu) (ok-injective e) (resolve-IsFirst nid cpu now c istats res first, tt)

  all_happen-Goes :
      (nid cpu : ℕ) (hs : List Happening) (c : Controller) (r : Controller × List Outgoing)
      → IsFirst nid cpu c
      → all_happen hs c ≡ ok r
      → Goes nid cpu r
  unfolding all_happen
  all_happen-Goes nid cpu [] c r first e = subst (Goes nid cpu) (ok-injective e) (first, tt)
  all_happen-Goes nid cpu (h ∷ hs) c r first e =
      let ((c₁, one), now, rest) = >>=-eq-ok (happens h c) _ e in
      let ((c₂, more), later, ends) = >>=-eq-ok (all_happen hs c₁) _ rest in
      let (first₁, here) = happens-Goes nid cpu h c (c₁, one) first now in
      let (first₂, there) = all_happen-Goes nid cpu hs c₁ (c₂, more) first₁ later in
      subst (Goes nid cpu) (ok-injective ends) (first₂, AllTo-append nid cpu one more here there)

  -- On a front end where no node has registered before: whatever nodes register after the first one,
  -- and whatever is scheduled and comes in, in any order, each activation that goes out goes to the
  -- node that has registered first, over the core that it got. The other nodes get none.
  pub first_node_only :
      (nid : ℕ) (hs : List Happening) (c c' : Controller) (sent : List Outgoing)
      → c.nids ≡ []
      → c.front_end_cpus_map ≡ []
      → all_happen (registers nid ∷ hs) c ≡ ok (c', sent)
      → AllTo nid (cpu_index cpu_num 1) sent
  unfolding register_node find emplace all_happen happens
  first_node_only nid hs c c' sent none_before no_cores e =
      let first = register_node hash nid_text cpu_num c nid in
      let ((c₂, more), later, ends) = >>=-eq-ok (all_happen hs first) _ e in
      let (first', there) =
        all_happen-Goes nid (cpu_index cpu_num 1) hs first (c₂, more)
          (
            ([], ap (λ l. l ++ nid ∷ []) none_before),
            ground (arith, none_before, no_cores, beq_self (nid_text nid)),
          )
          later in
      subst (λ (r : Controller × List Outgoing). AllTo nid (cpu_index cpu_num 1) r.1)
        (ok-injective ends) there
