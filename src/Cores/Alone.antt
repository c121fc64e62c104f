-- ===== src/Cores/Alone.antt =====
-- A node with a single core.
use seuss.Prelude.{
  ℕ, ◌%◌, ◌≡◌, refl, ap, sym, subst, ◌∙◌, List, [], ◌∷◌, ◌++◌, nat_eq, ok, >>=-eq-ok, ok-injective,
  arith, append-nil,
}
use seuss.Invocation.{Invocation}
use seuss.Root.Defs.{InvokerRoot, add_work, poke_cores}
use seuss.Root.Queue.Calls.{add_work-pokes}
use seuss.Cores.Defs.{Machine, arrive, poked, ended, Reach, start, arrives, moves}

-- `AddWork` on the only core pokes none.
poke_cores-alone : (tid : ℕ) → poke_cores 1 0 (tid % 1) 1 0 ≡ []
unfolding poke_cores
poke_cores-alone tid = ground arith

arrive-alone :
    (i : Invocation) (m m' : Machine)
    → arrive 1 0 i m ≡ ok m'
    → (m'.pokes ≡ m.pokes) × (m'.running ≡ m.running)
unfolding arrive
arrive-alone i m m' e =
    let ((root, cores), added, rest) = >>=-eq-ok (add_work 1 0 m.root i) _ e in
    let none_poked =
      add_work-pokes 1 0 m.root root i cores added ∙ poke_cores-alone i.info.transaction_id in
    subst (λ (x : Machine). (x.pokes ≡ m.pokes) × (x.running ≡ m.running)) (ok-injective rest)
      (ap (λ l. m.pokes ++ l) none_poked ∙ append-nil m.pokes, refl)

not_empty_middle {ℓ} : {A : Type ℓ} (x : A) (before after : List A) → ¬ ([] ≡ before ++ x ∷ after)
not_empty_middle x [] after e = cc e
not_empty_middle x (y ∷ before) after e = cc e

-- `AddWork` wakes every core but its own. On a node with a single core, which is its own, no poke ever
-- waits, and no invocation ever runs, whatever arrives and whatever the limit.
pub alone_never_runs :
    {limit : ℕ} {root : InvokerRoot} {m : Machine}
    → Reach 1 limit root m
    → (m.pokes ≡ []) × (m.running ≡ [])
alone_never_runs start = (refl, refl)
alone_never_runs (arrives {m} mine i m' r here e) =
    let (none_waits, none_runs) = alone_never_runs r in
    let (same, also) = arrive-alone i m m' (ap (λ c. arrive 1 c i m) (omega (arith, here)) ∙ e) in
    (same ∙ none_waits, also ∙ none_runs)
alone_never_runs (moves r (poked before after core is m' waits e)) =
    absurd (not_empty_middle core before after (sym (alone_never_runs r).0 ∙ waits))
alone_never_runs (moves r (ended before after core i runs)) =
    absurd (not_empty_middle (core, i) before after (sym (alone_never_runs r).1 ∙ runs))
