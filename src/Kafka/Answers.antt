-- ===== src/Kafka/Answers.antt =====
-- The activation messages that are taken from the broker, and the completions that are sent.
use seuss.Prelude.{
  ℕ, suc, ◌+◌, ◌≡◌, refl, sym, subst, ◌∙◌, Bool-cases, Option-cases, inl, inr, List, [], ◌∷◌, ◌++◌,
  arith, Bytes, bytes_eq, ◌==◌, nat_eq, codes, if◌then◌else◌, Result, ok, >>=-eq-ok,
}
use seuss.Table.{Table, size, find, IsDistinct, erase-IsDistinct, size-erase}
use seuss.Invocation.{InvocationStats}
use seuss.Openwhisk.Msg.{ActivationMessage}
use seuss.Openwhisk.Reader.{read_activation}
use seuss.Controller.Defs.{ActivationRecord, schedule_activation, schedule_with_code}
use seuss.Controller.Records.{schedule_adds, resolve_known, resolve_unknown}
use seuss.Kafka.Defs.{
  Kafka, Environment, Output, produce, commit, send_request, sleep, completed, nothing, failure,
  payload, FrontEnd, is_answered_at_once, answer_at_once, schedule, handle_activation, pause,
  consume, outputs_of, receive_reply, Turn, polls, replies, turn, run,
}

-- The completions among the outputs, and the activation messages among the turns.
abbrev pub answers : List Output → ℕ
answers [] = 0
answers (produce topic text ∷ outs) =
    let rest = answers outs in if topic == codes "completed0" then suc rest else rest
answers (commit ∷ outs) = answers outs
answers (send_request out ∷ outs) = answers outs
answers (sleep ms ∷ outs) = answers outs

abbrev pub payloads : List Turn → ℕ
payloads [] = 0
payloads (polls now promise (payload text) ∷ ts) = suc (payloads ts)
payloads (polls now promise nothing ∷ ts) = payloads ts
payloads (polls now promise failure ∷ ts) = payloads ts
payloads (replies now istats res ∷ ts) = payloads ts

payloads_cons : (t : Turn) (ts : List Turn) → payloads (t ∷ ts) ≡ payloads (t ∷ []) + payloads ts
payloads_cons (polls now promise nothing) ts = omega arith
payloads_cons (polls now promise failure) ts = omega arith
payloads_cons (polls now promise (payload text)) ts = omega arith
payloads_cons (replies now istats res) ts = omega arith

answers-append : (xs ys : List Output) → answers (xs ++ ys) ≡ answers xs + answers ys
answers-append [] ys = omega arith
answers-append (produce topic text ∷ xs) ys = ground (arith, answers-append xs ys)
answers-append (commit ∷ xs) ys = answers-append xs ys
answers-append (send_request out ∷ xs) ys = answers-append xs ys
answers-append (sleep ms ∷ xs) ys = answers-append xs ys

abbrev pub waiting : FrontEnd → ℕ
waiting s = size s.controller.record_map

-- From one state to the next: the keys stay distinct, and nothing is lost.
abbrev IsKept : FrontEnd → FrontEnd → List Output → (taken : ℕ) → Type 0
IsKept s s' outs taken =
    IsDistinct s'.controller.record_map × (answers outs + waiting s' ≡ waiting s + taken)

IsKept-of_ok :
    (s s₁ s' : FrontEnd) (outs₁ outs : List Output) (taken : ℕ)
    → ◌≡◌ {A = Result (FrontEnd × List Output)} (ok (s₁, outs₁)) (ok (s', outs))
    → IsKept s s₁ outs₁ taken
    → IsKept s s' outs taken
IsKept-of_ok s s₁ s' outs₁ outs taken e kept =
    let same : ◌≡◌ {A = FrontEnd × List Output} (s₁, outs₁) (s', outs) = cc in
    subst (λ (r : FrontEnd × List Output). IsKept s r.0 r.1 taken) same kept

module _ (env : Environment) (k : Kafka) where
  open env use {hash, nid_text, id₀, instance₀, status₀, blocking₀, yajl, http_get, code_in}

  answers-pause : answers (pause env k) ≡ 0
  unfolding pause
  answers-pause = ground arith

  schedule-IsKept :
      (now promise : ℕ) (s s' : FrontEnd) (am : ActivationMessage) (outs : List Output)
      → IsDistinct s.controller.record_map
      → schedule env k now promise s am ≡ ok (s', outs)
      → IsKept s s' outs 1
  unfolding schedule schedule_activation
  schedule-IsKept now promise s s' am outs d e =
      let ((c, db, out), done, ends) =
        >>=-eq-ok
          (schedule_activation hash nid_text http_get code_in now promise s.controller s.db am []) _
          e in
      let ((c', out'), scheduled, same) =
        >>=-eq-ok (schedule_with_code hash nid_text now promise s.controller am _) _ done in
      let (new, added, id) =
        schedule_adds hash nid_text now promise s.controller c' am _ out' scheduled in
      let kept : c'.record_map ≡ s'.controller.record_map = cc (same, ends) in
      let more =
        subst (λ (m : Table ℕ ActivationRecord). IsDistinct m × (size m ≡ suc (waiting s)))
          (sym added ∙ kept) ((new, d), refl) in
      (more.0, ground (arith, more.1, ends))

  receive_reply-IsKept :
      (now : ℕ) (istats : InvocationStats) (res : Bytes) (s : FrontEnd)
      → IsDistinct s.controller.record_map
      → IsKept s (receive_reply env k now istats res s).0 (receive_reply env k now istats res s).1 0
  unfolding receive_reply outputs_of completed
  receive_reply-IsKept now istats res s d =
      elim (Option-cases (find istats.transaction_id s.controller.record_map)) [
        | inl unknown ↦
            rw (resolve_unknown instance₀ status₀ now s.controller istats res unknown)
              (d, omega arith)
        | inr (entry, at) ↦ rw (resolve_known instance₀ status₀ now s.controller istats res at) (
          erase-IsDistinct istats.transaction_id s.controller.record_map d,
          omega (arith, size-erase istats.transaction_id entry s.controller.record_map d at),
        )
      ]

  handle_activation-IsKept :
      (now promise : ℕ) (s s' : FrontEnd) (am : ActivationMessage) (outs : List Output)
      → IsDistinct s.controller.record_map
      → handle_activation env k now promise s am ≡ ok (s', outs)
      → IsKept s s' outs 1
  unfolding handle_activation answer_at_once completed
  handle_activation-IsKept now promise s s' am outs d e =
      elim (Bool-cases (is_answered_at_once env k am)) [
        | inl at_once ↦
            IsKept-of_ok s s s' (answer_at_once env k am ∷ []) outs 1 (rw at_once at e)
              (d, omega arith)
        | inr later ↦ schedule-IsKept now promise s s' am outs d (rw later at e)
      ]

  consume-IsKept :
      (now promise : ℕ) (text : Bytes) (s s' : FrontEnd) (outs : List Output)
      → IsDistinct s.controller.record_map
      → consume env k now promise (payload text) s ≡ ok (s', outs)
      → IsKept s s' outs 1
  unfolding consume
  consume-IsKept now promise text s s' outs d e =
      let (am, read, rest) = >>=-eq-ok (read_activation yajl id₀ instance₀ blocking₀ text) _ e in
      let ((s₁, some_outs), handled, ends) =
        >>=-eq-ok (handle_activation env k now promise s am) _ rest in
      let (d₁, kept) = handle_activation-IsKept now promise s s₁ am some_outs d handled in
      IsKept-of_ok s s₁ s' (commit ∷ (some_outs ++ pause env k)) outs 1 ends
        (d₁, omega (arith, kept, answers-append some_outs (pause env k), answers-pause))

  turn-IsKept :
      (t : Turn) (s s' : FrontEnd) (outs : List Output)
      → IsDistinct s.controller.record_map
      → turn env k t s ≡ ok (s', outs)
      → IsKept s s' outs (payloads (t ∷ []))
  unfolding turn consume
  turn-IsKept (polls now promise nothing) s s' outs d e =
      IsKept-of_ok s s s' [] outs 0 e (d, omega arith)
  turn-IsKept (polls now promise failure) s s' outs d e =
      IsKept-of_ok s s s' (pause env k) outs 0 e (d, omega (arith, answers-pause))
  turn-IsKept (polls now promise (payload text)) s s' outs d e =
      consume-IsKept now promise text s s' outs d e
  turn-IsKept (replies now istats res) s s' outs d e =
      IsKept-of_ok s _ s' _ outs 0 e (receive_reply-IsKept now istats res s d)

  -- Whatever the broker gives and whatever the nodes reply, in any order: while the front end runs, the
  -- completions that it has sent and the activations that wait are together as many as the activations
  -- that waited at first and the activation messages that it has taken. The keys of the activations that
  -- wait are distinct at first.
  pub run-answers :
      (ts : List Turn) (s s' : FrontEnd) (outs : List Output)
      → IsDistinct s.controller.record_map
      → run env k ts s ≡ ok (s', outs)
      → answers outs + waiting s' ≡ waiting s + payloads ts
  unfolding run
  run-answers [] s s' outs d e = ground (arith, e)
  run-answers (t ∷ ts) s s' outs d e =
      let ((s₁, first), now, rest) = >>=-eq-ok (turn env k t s) _ e in
      let ((s₂, more), later, ends) = >>=-eq-ok (run env k ts s₁) _ rest in
      let (d₁, kept) = turn-IsKept t s s₁ first d now in
      let ih = run-answers ts s₁ s₂ more d₁ later in
      ground (arith, ih, kept, ends, answers-append first more, payloads_cons t ts)
