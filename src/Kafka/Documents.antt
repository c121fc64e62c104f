-- ===== src/Kafka/Documents.antt =====
-- The texts that the client gives to OpenWhisk (`activation_consumer_loop` of src/openwhisk/kafka.cc).
use seuss.Prelude.{
  ℕ, ◌≡◌, refl, sym, subst, ◌∙◌, true, Bool-cases, Option-cases, inl, inr, List, [], ◌∷◌, ◌++◌,
  arith, Bytes, bytes_eq, nat_eq, codes, if◌then◌else◌, Result, ok, >>=-eq-ok,
}
use seuss.Prelude.Int.{pos, of_word}
use seuss.Table.{Table, find}
use seuss.Invocation.{InvocationStats}
use seuss.Openwhisk.Msg.{ActivationMessage, new_completion}
use seuss.Openwhisk.Reader.{read_activation}
use seuss.Openwhisk.Grammar.{object, no_element, text_of, is_proper, is_blank, IsText}
use seuss.Openwhisk.Completed.{last, is_plain_message, filled-IsText}
use seuss.Controller.Defs.{ActivationRecord, complete, schedule_activation, schedule_with_code}
use seuss.Controller.Records.{schedule_adds, resolve_known, resolve_unknown}
use seuss.Kafka.Defs.{
  Kafka, Environment, Output, commit, send_request, completed, nothing, failure, payload, FrontEnd,
  is_answered_at_once, answer_at_once, schedule, handle_activation, pause, consume, outputs_of,
  receive_reply, Turn, polls, replies, turn, run,
}
use seuss.Kafka.Texts.{
  AreTexts, all_plain, reads_plain, append-AreTexts, find-all_plain, erase-all_plain,
  annotations-text_of, measures-are_proper,
}

module _ (env : Environment) (k : Kafka) where
  open env use {hash, nid_text, id₀, instance₀, status₀, blocking₀, yajl, http_get, code_in}

  -- What comes in: activations whose names can stand in a string as they are, and results that are texts of JSON.
  abbrev pub AreFit : List Turn → Type 0
  AreFit [] = Unit {0}
  AreFit (polls now promise nothing ∷ ts) = AreFit ts
  AreFit (polls now promise failure ∷ ts) = AreFit ts
  AreFit (polls now promise (payload text) ∷ ts) =
      (reads_plain (read_activation yajl id₀ instance₀ blocking₀ text) ≡ true) × AreFit ts
  AreFit (replies now istats res ∷ ts) = IsText res × AreFit ts

  -- From one state to the next: the names stay plain, and only texts go out.
  abbrev IsSaid : FrontEnd → List Output → Type 0
  IsSaid s outs = (all_plain s.controller.record_map ≡ true) × AreTexts outs

  IsSaid-of_ok :
      (s₁ s' : FrontEnd) (outs₁ outs : List Output)
      → ◌≡◌ {A = Result (FrontEnd × List Output)} (ok (s₁, outs₁)) (ok (s', outs))
      → IsSaid s₁ outs₁
      → IsSaid s' outs
  IsSaid-of_ok s₁ s' outs₁ outs e said =
      let same : ◌≡◌ {A = FrontEnd × List Output} (s₁, outs₁) (s', outs) = cc in
      subst (λ (r : FrontEnd × List Output). IsSaid r.0 r.1) same said

  pause-AreTexts : AreTexts (pause env k)
  unfolding pause
  pause-AreTexts = ground arith

  completed-AreTexts :
      (now : ℕ) (entry : ActivationRecord) (istats : InvocationStats) (res : Bytes)
      → is_plain_message entry.message ≡ true
      → IsText res
      → AreTexts (completed k (complete instance₀ status₀ now entry istats res) ∷ [])
  unfolding completed complete new_completion
  completed-AreTexts now entry istats res plain text = (
    filled-IsText instance₀ status₀ entry.message plain (of_word istats.exec.run_time)
        (if istats.exec.status then pos 1 else pos 0) (of_word k.invoker_id) _ res _ text
        (annotations-text_of _ istats.exec) (measures-are_proper _ istats.exec),
    tt,
  )

  answer_at_once-AreTexts :
      (am : ActivationMessage)
      → is_plain_message am ≡ true
      → AreTexts (answer_at_once env k am ∷ [])
  unfolding answer_at_once completed new_completion text_of is_proper is_blank
  answer_at_once-AreTexts am plain = (
    filled-IsText instance₀ status₀ am plain (pos 0) (pos 0) (of_word k.invoker_id) [] (codes "{}")
        (no_element []) (object last, refl, refl) refl refl,
    tt,
  )

  receive_reply-IsSaid :
      (now : ℕ) (istats : InvocationStats) (res : Bytes) (s : FrontEnd)
      → all_plain s.controller.record_map ≡ true
      → IsText res
      → IsSaid (receive_reply env k now istats res s).0 (receive_reply env k now istats res s).1
  unfolding receive_reply outputs_of
  receive_reply-IsSaid now istats res s plain text =
      elim (Option-cases (find istats.transaction_id s.controller.record_map)) [
        | inl unknown ↦
            rw (resolve_unknown instance₀ status₀ now s.controller istats res unknown) (plain, tt)
        | inr (entry, at) ↦ rw (resolve_known instance₀ status₀ now s.controller istats res at) (
          erase-all_plain istats.transaction_id s.controller.record_map plain,
          completed-AreTexts now entry istats res
              (find-all_plain istats.transaction_id entry s.controller.record_map plain at) text,
        )
      ]

  handle_activation-IsSaid :
      (now promise : ℕ) (s s' : FrontEnd) (am : ActivationMessage) (outs : List Output)
      → all_plain s.controller.record_map ≡ true
      → is_plain_message am ≡ true
      → handle_activation env k now promise s am ≡ ok (s', outs)
      → IsSaid s' outs
  unfolding handle_activation schedule schedule_activation
  handle_activation-IsSaid now promise s s' am outs plain named e =
      elim (Bool-cases (is_answered_at_once env k am)) [
        | inl at_once ↦
            IsSaid-of_ok s s' (answer_at_once env k am ∷ []) outs (rw at_once at e)
              (plain, answer_at_once-AreTexts am named)
        | inr later ↦
            let ((c, db, out), done, ends) =
              >>=-eq-ok
                (schedule_activation hash nid_text http_get code_in now promise s.controller s.db am
                  [])
                _ (rw later at e) in
            let ((c', out'), scheduled, same) =
              >>=-eq-ok (schedule_with_code hash nid_text now promise s.controller am _) _ done in
            let (new, added, id) =
              schedule_adds hash nid_text now promise s.controller c' am _ out' scheduled in
            let kept : c'.record_map ≡ c.record_map = cc same in
            IsSaid-of_ok (record { controller = c; db = db }) s' (send_request out ∷ []) outs ends
              (
                subst (λ (m : Table ℕ ActivationRecord). all_plain m ≡ true) (sym added ∙ kept)
                    (ground (arith, plain, named)),
                tt,
              )
      ]

  consume-IsSaid :
      (now promise : ℕ) (text : Bytes) (s s' : FrontEnd) (outs : List Output)
      → all_plain s.controller.record_map ≡ true
      → reads_plain (read_activation yajl id₀ instance₀ blocking₀ text) ≡ true
      → consume env k now promise (payload text) s ≡ ok (s', outs)
      → IsSaid s' outs
  unfolding consume
  consume-IsSaid now promise text s s' outs plain named e =
      let (am, read, rest) = >>=-eq-ok (read_activation yajl id₀ instance₀ blocking₀ text) _ e in
      let ((s₁, some_outs), handled, ends) =
        >>=-eq-ok (handle_activation env k now promise s am) _ rest in
      let (plain₁, texts) =
        handle_activation-IsSaid now promise s s₁ am some_outs plain (rw read at named) handled in
      IsSaid-of_ok s₁ s' (commit ∷ (some_outs ++ pause env k)) outs ends
        (plain₁, append-AreTexts some_outs (pause env k) texts pause-AreTexts)

  turn-IsSaid :
      (t : Turn) (s s' : FrontEnd) (outs : List Output)
      → all_plain s.controller.record_map ≡ true
      → AreFit (t ∷ [])
      → turn env k t s ≡ ok (s', outs)
      → IsSaid s' outs
  unfolding turn consume
  turn-IsSaid (polls now promise nothing) s s' outs plain fit e =
      IsSaid-of_ok s s' [] outs e (plain, tt)
  turn-IsSaid (polls now promise failure) s s' outs plain fit e =
      IsSaid-of_ok s s' (pause env k) outs e (plain, pause-AreTexts)
  turn-IsSaid (polls now promise (payload text)) s s' outs plain fit e =
      consume-IsSaid now promise text s s' outs plain fit.0 e
  turn-IsSaid (replies now istats res) s s' outs plain fit e =
      IsSaid-of_ok _ s' _ outs e (receive_reply-IsSaid now istats res s plain fit.0)

  AreFit-cons : (t : Turn) (ts : List Turn) → AreFit (t ∷ ts) → AreFit (t ∷ []) × AreFit ts
  AreFit-cons (polls now promise nothing) ts fit = (tt, fit)
  AreFit-cons (polls now promise failure) ts fit = (tt, fit)
  AreFit-cons (polls now promise (payload text)) ts fit = ((fit.0, tt), fit.1)
  AreFit-cons (replies now istats res) ts fit = ((fit.0, tt), fit.1)

  -- The consumer, from any state on.
  pub run-AreTexts :
      (ts : List Turn) (s s' : FrontEnd) (outs : List Output)
      → all_plain s.controller.record_map ≡ true
      → AreFit ts
      → run env k ts s ≡ ok (s', outs)
      → AreTexts outs
  unfolding run
  run-AreTexts [] s s' outs plain fit e = (IsSaid-of_ok s s' [] outs e (plain, tt)).1
  run-AreTexts (t ∷ ts) s s' outs plain fit e =
      let ((s₁, first), now, rest) = >>=-eq-ok (turn env k t s) _ e in
      let ((s₂, more), later, ends) = >>=-eq-ok (run env k ts s₁) _ rest in
      let (fits, others) = AreFit-cons t ts fit in
      let (plain₁, texts) = turn-IsSaid t s s₁ first plain fits now in
      let texts₂ = run-AreTexts ts s₁ s₂ more plain₁ others later in
      let same : ◌≡◌ {A = List Output} (first ++ more) outs = cc ends in
      subst AreTexts same (append-AreTexts first more texts texts₂)
