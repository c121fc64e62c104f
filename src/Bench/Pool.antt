-- ===== src/Bench/Pool.antt =====
-- How many runs of a benchmark are under way.
use seuss.Prelude.{
  ℕ, zero, suc, ◌+◌, ◌≤◌, ◌≡◌, refl, ap, sym, subst, Option-cases, inl, inr, List, [], ◌∷◌, ◌++◌,
  arith, Bytes, nat_eq, map, map-append, append_assoc, ◌∙◌, Result, ok, >>=-eq-ok,
}
use seuss.Prelude.Int.{ℤ, pos}
use seuss.Prelude.Decimal.{to_string}
use seuss.Table.{Table, size, find, IsDistinct, erase-IsDistinct, size-erase}
use seuss.Invocation.{InvocationStats}
use seuss.Openwhisk.Msg.{ActivationMessage}
use seuss.Controller.Defs.{ActivationRecord, Controller, Outgoing, schedule_with_code}
use seuss.Controller.Records.{schedule_adds, schedule_sends, resolve_known, resolve_unknown}
use seuss.Bench.Rounds.{
  below_one, minus_one, plus_one, Rounds, RoundEvent, goes_on, replies, put_back, send_next, round,
  rounds,
}

abbrev pub under_way : Rounds → ℕ
under_way s = size s.controller.record_map

-- A place of the pool is free, or a run has it.
abbrev IsShared : (places : ℕ) → Rounds → Type 0
IsShared places s =
    IsDistinct s.controller.record_map
    × ((free : ℕ) × (s.pool ≡ pos free) × (free + under_way s ≡ places))

-- The function ids of what was sent.
abbrev pub functions : List Outgoing → List ℕ
functions sent = map (λ out. out.stats.function_id) sent

-- From one state to the next: the pool stays shared, and the names are sent in their order.
abbrev Goes : (hash : Bytes → ℕ) (places : ℕ) → Rounds → Rounds → List Outgoing → Type 0
Goes hash places s s' sent =
    IsShared places s' × (functions sent ++ map hash s'.revisions ≡ map hash s.revisions)

Goes-ok :
    (hash : Bytes → ℕ) (places : ℕ) (s s₁ s' : Rounds) (sent₁ sent : List Outgoing)
    → ◌≡◌ {A = Result (Rounds × List Outgoing)} (ok (s₁, sent₁)) (ok (s', sent))
    → Goes hash places s s₁ sent₁
    → Goes hash places s s' sent
Goes-ok hash places s s₁ s' sent₁ sent e goes =
    let same : ◌≡◌ {A = Rounds × List Outgoing} (s₁, sent₁) (s', sent) = cc in
    subst (λ (r : Rounds × List Outgoing). Goes hash places s r.0 r.1) same goes

in_order :
    {l : List ℕ} (xs ys rest middle all : List ℕ)
    → l ≡ xs ++ ys
    → xs ++ middle ≡ all
    → ys ++ rest ≡ middle
    → l ++ rest ≡ all
in_order xs ys rest middle all e one others =
    ap (λ x. x ++ rest) e ∙ append_assoc xs ys rest ∙ ap (λ x. xs ++ x) others ∙ one

module _ (hash : Bytes → ℕ) (nid_text : ℕ → Bytes) (instance₀ status₀ : ℤ) (am : ActivationMessage)
    (code : Bytes) (places : ℕ) where
  Goes-send_next :
      (now promise drawn : ℕ) (l : List Bytes) (s s' : Rounds) (sent : List Outgoing) (free : ℕ)
      → s.revisions ≡ l
      → IsDistinct s.controller.record_map
      → s.pool ≡ pos free
      → free + under_way s ≡ places
      → send_next hash nid_text instance₀ status₀ am code now promise drawn l s ≡ ok (s', sent)
      → Goes hash places s s' sent
  unfolding send_next below_one minus_one
  Goes-send_next now promise drawn [] s s' sent free at d pool all e =
      Goes-ok hash places s s s' [] sent e ((d, (free, pool, all)), refl)
  Goes-send_next now promise drawn (re ∷ rest) s s' sent zero at d pool all e =
      Goes-ok hash places s (record s { pool = pos 0 }) s' [] sent (rw pool at e)
        ((d, (zero, refl, all)), refl)
  Goes-send_next now promise drawn (re ∷ rest) s s' sent (suc free) at d pool all e =
      let am_tmp = record am {
        transid = record am.transid { name = to_string drawn };
        revision = re;
      } in
      let ((c, out), done, ends) =
        >>=-eq-ok (schedule_with_code hash nid_text now promise s.controller am_tmp code) _
          (rw pool at e) in
      let (new, added, id) =
        schedule_adds hash nid_text now promise s.controller c am_tmp code out done in
      let ran = schedule_sends hash nid_text now promise s.controller c am_tmp code out done in
      Goes-ok hash places s (record { revisions = rest; pool = pos free; controller = c }) s'
        (out ∷ []) sent ends
        (
          (
            subst (λ (m : Table ℕ ActivationRecord). IsDistinct m) (sym added) (new, d),
            (free, refl, ground (arith, all, ap (λ (m : Table ℕ ActivationRecord). size m) added)),
          ),
          rw (ran.4, at) refl,
        )

  Goes-replies :
      (now : ℕ) (istats : InvocationStats) (res : Bytes) (s s' : Rounds) (sent : List Outgoing)
      (free : ℕ)
      → IsDistinct s.controller.record_map
      → s.pool ≡ pos free
      → free + under_way s ≡ places
      → round hash nid_text instance₀ status₀ am code (replies now istats res) s ≡ ok (s', sent)
      → Goes hash places s s' sent
  unfolding round put_back plus_one
  Goes-replies now istats res s s' sent free d pool all e =
      elim (Option-cases (find istats.transaction_id s.controller.record_map)) [
        | inl unknown ↦
            Goes-ok hash places s s s' [] sent
              (rw (resolve_unknown instance₀ status₀ now s.controller istats res unknown) at e)
              ((d, (free, pool, all)), refl)
        | inr (entry, at) ↦
            let one_less = size-erase istats.transaction_id entry s.controller.record_map d at in
            Goes-ok hash places s _ s' [] sent
              (rw (resolve_known instance₀ status₀ now s.controller istats res at) at e)
              (
                (
                  erase-IsDistinct istats.transaction_id s.controller.record_map d,
                  (suc free, ap plus_one pool, omega (arith, all, one_less)),
                ),
                refl,
              )
      ]

  Goes-round :
      (v : RoundEvent) (s s' : Rounds) (sent : List Outgoing)
      → IsShared places s
      → round hash nid_text instance₀ status₀ am code v s ≡ ok (s', sent)
      → Goes hash places s s' sent
  unfolding round
  Goes-round (goes_on now promise drawn) s s' sent (d, (free, pool, all)) e =
      Goes-send_next now promise drawn s.revisions s s' sent free refl d pool all e
  Goes-round (replies now istats res) s s' sent (d, (free, pool, all)) e =
      Goes-replies now istats res s s' sent free d pool all e

  Goes-rounds :
      (es : List RoundEvent) (s s' : Rounds) (sent : List Outgoing)
      → IsShared places s
      → rounds hash nid_text instance₀ status₀ am code es s ≡ ok (s', sent)
      → Goes hash places s s' sent
  unfolding rounds
  Goes-rounds [] s s' sent shared e = Goes-ok hash places s s s' [] sent e (shared, refl)
  Goes-rounds (v ∷ es) s s' sent shared e =
      let ((s₁, first), now, rest) =
        >>=-eq-ok (round hash nid_text instance₀ status₀ am code v s) _ e in
      let ((s₂, more), later, ends) =
        >>=-eq-ok (rounds hash nid_text instance₀ status₀ am code es s₁) _ rest in
      let (shared₁, one) = Goes-round v s s₁ first shared now in
      let (shared₂, others) = Goes-rounds es s₁ s₂ more shared₁ later in
      Goes-ok hash places s s₂ s' (first ++ more) sent ends (
        shared₂,
        in_order (functions first) (functions more) _ _ _ (map-append _ first more) one others,
      )

  -- A benchmark with a number of workers that is not negative, on a front end where nothing waits. The
  -- two updates of `concurrencyPool`, a plain `int` that the loop lowers and the continuations raise on
  -- another thread, are taken as atomic. Then, whatever the order in which the loop goes on and the
  -- replies come in, at no time are more runs under way than there are workers, and what was sent runs
  -- the functions of the first names, in their order and each once, by the hashes of the names, and the
  -- names after these are still to be run.
  pub rounds-bounds :
      (es : List RoundEvent) (names : List Bytes) (c : Controller) (s' : Rounds)
      (sent : List Outgoing)
      → c.record_map ≡ []
      → rounds hash nid_text instance₀ status₀ am code es
          (record { revisions = names; pool = pos places; controller = c })
        ≡ ok (s', sent)
      → (under_way s' ≤ places) × (functions sent ++ map hash s'.revisions ≡ map hash names)
  rounds-bounds es names c s' sent idle e =
      let none_waits : size c.record_map ≡ 0 = ap (λ (m : Table ℕ ActivationRecord). size m) idle in
      let distinct = subst (λ (m : Table ℕ ActivationRecord). IsDistinct m) (sym idle) tt in
      let ((d, (free, pool, all)), sent_all) =
        Goes-rounds es _ s' sent (distinct, (places, refl, omega (arith, none_waits))) e in
      (omega (arith, all), sent_all)
