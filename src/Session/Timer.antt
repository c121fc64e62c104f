-- ===== src/Session/Timer.antt =====
-- The time-out of a session: how the handlers use the timer, and when a session is aborted.
use seuss.Prelude.{
  ℕ, ◌+◌, ◌≡◌, ◌≢◌, Bool, true, false, Option, none, some, List, [], ◌∷◌, ◌++◌, arith, nat_eq, leb,
  if◌then◌else◌, Bytes, drop, ok, >>=-eq-ok,
}
use seuss.Session.Defs.{
  InvocationSession, Action, set_value, spawn_set_value, set_finished, timer_start, timer_stop,
  connect_to, disconnect, send, aborted, Effect, enable_timer, disable_timer, connect, on_connected,
  on_close, on_abort, finish, fire, send_http_request, receive_status, receive_response,
  process_reply, status_line,
}
use seuss.Session.Replies.{receive-process_reply}
use seuss.Session.History.{
  Call, connects, receives, sends, step, Happening, did, timer_ended, all_did, happenings, run,
}

-- The timer as EbbRT sees it: `none` when it is started twice, or stopped while it does not run.
abbrev pub follow : Bool → List Happening → Option Bool
follow running [] = some running
follow true (did (timer_start us) ∷ hs) = none
follow false (did (timer_start us) ∷ hs) = follow true hs
follow true (did timer_stop ∷ hs) = follow false hs
follow false (did timer_stop ∷ hs) = none
follow running (timer_ended ∷ hs) = follow false hs
follow running (did (set_value p) ∷ hs) = follow running hs
follow running (did (spawn_set_value p) ∷ hs) = follow running hs
follow running (did (set_finished b) ∷ hs) = follow running hs
follow running (did (connect_to p) ∷ hs) = follow running hs
follow running (did disconnect ∷ hs) = follow running hs
follow running (did (send m) ∷ hs) = follow running hs

process_reply-follow :
    (http_status response : Bytes) (s : InvocationSession)
    → follow s.timer_set (all_did (process_reply http_status response s).1)
      ≡ some (process_reply http_status response s).0.timer_set
unfolding process_reply receive_status receive_response
process_reply-follow http_status response s = ground arith

step-follow :
    (s s' : InvocationSession) (c : Call) (acts : List Action)
    → step s c ≡ ok (s', acts)
    → follow s.timer_set (happenings c acts) ≡ some s'.timer_set
unfolding step connect on_connected on_close on_abort finish fire send_http_request enable_timer
    disable_timer
step-follow s s' (connects now) acts e = ground arith
step-follow s s' (receives chained reply) acts e =
    let (brace, at, same) = receive-process_reply chained reply s e in
    ground (arith, process_reply-follow (status_line reply) (drop brace reply) s)
step-follow s s' (sends now path payload keep) acts e = ground arith
step-follow s s' c acts e = ground arith

follow-append :
    (running : Bool) (hs ks : List Happening) {middle : Bool}
    → follow running hs ≡ some middle
    → follow running (hs ++ ks) ≡ follow middle ks
follow-append running [] ks e = ground arith
follow-append true (did (timer_start us) ∷ hs) ks e = cc
follow-append false (did (timer_start us) ∷ hs) ks e = follow-append true hs ks e
follow-append true (did timer_stop ∷ hs) ks e = follow-append false hs ks e
follow-append false (did timer_stop ∷ hs) ks e = cc
follow-append running (timer_ended ∷ hs) ks e = follow-append false hs ks e
follow-append running (did (set_value p) ∷ hs) ks e = follow-append running hs ks e
follow-append running (did (spawn_set_value p) ∷ hs) ks e = follow-append running hs ks e
follow-append running (did (set_finished b) ∷ hs) ks e = follow-append running hs ks e
follow-append running (did (connect_to p) ∷ hs) ks e = follow-append running hs ks e
follow-append running (did disconnect ∷ hs) ks e = follow-append running hs ks e
follow-append running (did (send m) ∷ hs) ks e = follow-append running hs ks e

-- Whatever events come, a session never starts its timer while it runs nor stops it while it does not,
-- and `timer_set` says whether it runs.
pub run-follow :
    (s s' : InvocationSession) (cs : List Call) (hs : List Happening)
    → run s cs ≡ ok (s', hs)
    → follow s.timer_set hs ≡ some s'.timer_set
unfolding run
run-follow s s' [] hs e = ground arith
run-follow s s' (c ∷ cs) hs e =
    let ((s₁, acts), done, rest) = >>=-eq-ok (step s c) _ e in
    let ((s₂, ks), ran, last) = >>=-eq-ok (run s₁ cs) _ rest in
    ground (
      arith,
      last,
      run-follow s₁ s₂ cs ks ran,
      follow-append s.timer_set (happenings c acts) ks (step-follow s s₁ c acts done),
    )

-- What the end of a timer does: the session is closed and its abort is announced.
abbrev pub timed_out : InvocationSession → Effect
timed_out s = (
  record s { timer_set = false; timeout = 0; is_connected = false },
  spawn_set_value aborted ∷ [],
)

-- A session with an instance that does not answer: the timer runs for 5 s of microseconds from the
-- call of `Connect`, and when it ends the session is aborted exactly if these 5 s have passed.
pub fire-connect :
    (t now : ℕ) (s : InvocationSession)
    → s.is_connected ≡ false
    → s.src_port ≢ 0
    → s.timer_set ≡ false
    → (s' : InvocationSession) × (connect t s
        ≡ ok (s', connect_to s.src_port ∷ timer_start 5000000 ∷ []))
      × (fire now s' ≡ (
          if leb (t + 5000000000) now then timed_out s' else (record s' { timer_set = false }, [])))
unfolding connect fire on_abort enable_timer disable_timer
fire-connect t now s c p u =
    (record s { timer_set = true; timeout = t + 5000000000 }, ground arith, ground arith)

-- A connected session has 60 s from then on, whatever was left of the time to connect.
pub fire-on_connected :
    (t now : ℕ) (s : InvocationSession)
    → fire now (on_connected t s).0 ≡ (
        if leb (t + 60000000000) now
        then timed_out (on_connected t s).0
        else (record (on_connected t s).0 { timer_set = false }, []))
unfolding on_connected fire on_abort enable_timer disable_timer
fire-on_connected t now s = ground arith

-- After the end of a session, by a close, an abort or a finish, a timer that still ends does nothing.
pub fire-end :
    (now : ℕ) (status : Bool) (s : InvocationSession)
    → (fire now (on_close s).0 ≡ ((on_close s).0, []))
      × (fire now (on_abort s).0 ≡ ((on_abort s).0, []))
      × (fire now (finish status s).0 ≡ ((finish status s).0, []))
unfolding fire on_close on_abort finish disable_timer
fire-end now status s = (ground arith, ground arith, ground arith)
