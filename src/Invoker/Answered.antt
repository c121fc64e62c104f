-- ===== src/Invoker/Answered.antt =====
-- The steps of a warm or a hot start: the instance has its code already, and is sent the arguments.
use seuss.Prelude.{
  ℕ, nat_eq, ◌≡◌, refl, append-nil, ap, ◌∙◌, ◌≢◌, Bool, true, false, some, List, [], ◌∷◌, ok, Bytes,
  codes, is_empty, drop, find_first_of, bytes_eq, arith,
}
use seuss.Prelude.Clock.{elapsed}
use seuss.Invocation.{InvocationStats}
use seuss.Hot.Defs.{HotCache}
use seuss.Session.Defs.{
  InvocationSession, receive, status_line, send_http_request, send, set_value, connected, executed,
  closed, get_runtime, disable_timer, new_session, on_close, connect,
}
use seuss.Session.Http.{http_post_request}
use seuss.Session.History.{connects, connects_done, receives, closes, step}
use seuss.Session.Replies.{receive_ok}
use seuss.Invoker.Defs.{callback, when_connected, when_executed, send_on, Attempt, did}
use seuss.Invoker.Starts.{Job, handler, Event, calls_back, status_of}
use seuss.Invoker.Events.{
  events-none, events-handler, events-calls_back, connecting, connect-new_session,
}
use seuss.Invoker.Served.{EndsWell, replies, made, up, on_connected-up, when_closed-kept_hot}

-- The instance accepts the connection, replies, and closes.
abbrev pub answered : (t₀ t₁ t₂ : ℕ) (reply : Bytes) → List Event
answered t₀ t₁ t₂ reply =
    handler (connects t₀)
    ∷ handler (connects_done t₁)
    ∷ calls_back t₁ connected
    ∷ handler (receives false reply)
    ∷ calls_back t₂ executed
    ∷ handler closes
    ∷ calls_back t₂ closed
    ∷ []

abbrev pub run_first : (t₁ : ℕ) → Attempt → Attempt
run_first t₁ a = record a {
  session = record a.session {
    previous_request = http_post_request (codes "/run") a.args false;
    run_start_time = t₁;
  };
}

pub when_connected-run :
    (t₁ : ℕ) (a : Attempt) (hot : HotCache)
    → is_empty a.code ≡ true
    → is_empty a.args ≡ false
    → when_connected t₁ a hot
      ≡ ok (run_first t₁ a, hot, did (send (http_post_request (codes "/run") a.args false)) ∷ [])
unfolding when_connected send_on send_http_request
when_connected-run t₁ a hot no_code some_args = simp (no_code, some_args)

-- A result other than the answer to an initialisation.
receive-result :
    (reply : Bytes) (brace : ℕ) (s : InvocationSession)
    → find_first_of b'{' reply ≡ some brace
    → status_line reply ≡ codes "HTTP/1.1 200 OK"
    → drop brace reply ≢ codes "{\"OK\":true}"
    → receive false reply s ≡ ok (record s { reply = drop brace reply }, set_value executed ∷ [])
receive-result reply brace s at good other =
    receive_ok reply brace s at good ∙ ground (arith, other)

abbrev pub answered_stats : (t₁ t₂ : ℕ) → InvocationStats → InvocationStats
answered_stats t₁ t₂ istats = record istats {
  exec = record istats.exec { run_time = elapsed t₂ t₁; status = false };
}

pub events-answered :
    (known : ℕ → Bool) (checkpoint : Bool) (t₀ t₁ t₂ brace port : ℕ) (reply : Bytes) (j : Job)
    → find_first_of b'{' reply ≡ some brace
    → status_line reply ≡ codes "HTTP/1.1 200 OK"
    → drop brace reply ≢ codes "{\"OK\":true}"
    → port ≢ 0
    → j.attempt.session ≡ new_session port
    → is_empty j.attempt.code ≡ true
    → is_empty j.attempt.args ≡ false
    → j.attempt.fid ≢ 0
    → j.attempt.umi_id ≢ 0
    → known j.attempt.umi_id ≡ true
    → EndsWell known checkpoint
        (answered t₀ t₁ t₂ reply)
        j
        j.node.root
        (answered_stats t₁ t₂ j.attempt.istats, drop brace reply)
unfolding step callback when_executed on_close disable_timer status_of get_runtime new_session
events-answered known checkpoint t₀ t₁ t₂ brace port reply j at good other far new no_code some_args
      f u k =
    let a₀ = record j.attempt { session = connecting t₀ port } in
    let a₁ = record j.attempt { session = up t₁ port } in
    let a₂ = run_first t₁ a₁ in
    let a₃ = record a₂ { session = record a₂.session { reply = drop brace reply } } in
    let exec = record a₃.istats.exec { status = false; run_time = get_runtime t₂ a₃.session } in
    let a₄ = record a₃ { istats = record a₃.istats { exec = exec } } in
    let a₅ = record a₄ { session = (on_close a₄.session).0 } in
    let sent : InvocationStats × Bytes =
      (answered_stats t₁ t₂ j.attempt.istats, drop brace reply) in
    let (a₆, outs, e, finishes, silent, none_made) =
      when_closed-kept_hot known a₅ j.node.hot f u k refl in
    (
      _,
      _,
      events-handler known checkpoint (connects t₀) _ j
          (ap (connect t₀) new ∙ connect-new_session t₀ port far)
          (events-handler known checkpoint (connects_done t₁) _ (record j { attempt = a₀ })
            (ap ok (on_connected-up t₀ t₁ port))
            (events-calls_back known checkpoint t₁ connected _ (record j { attempt = a₁ })
              (when_connected-run t₁ a₁ j.node.hot no_code some_args)
              (events-handler known checkpoint (receives false reply) _ (record j { attempt = a₂ })
                (receive-result reply brace a₂.session at good other)
                (events-calls_back known checkpoint t₂ executed _ (record j { attempt = a₃ }) refl
                  (events-handler known checkpoint closes _ (record j { attempt = a₄ }) refl
                    (events-calls_back known checkpoint t₂ closed _ (record j { attempt = a₅ }) e
                      (events-none known checkpoint _))))))),
      ap status_of (append-nil outs) ∙ finishes,
      ap (λ rest. sent ∷ replies rest) (append-nil outs) ∙ ap (λ rest. sent ∷ rest) silent,
      ap made (append-nil outs) ∙ none_made,
      refl,
    )
