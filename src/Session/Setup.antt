-- ===== src/Session/Setup.antt =====
-- A session is initialised at most once.
use seuss.Prelude.{
  ℕ, suc, ◌+◌, ◌≡◌, List, [], ◌∷◌, ◌++◌, arith, if◌then◌else◌, Bytes, drop, ok, >>=-eq-ok,
}
use seuss.Session.Defs.{
  InvocationSession, Action, set_value, initialized, enable_timer, disable_timer, connect,
  on_connected, on_close, on_abort, finish, fire, send_http_request, receive_status,
  receive_response, process_reply, status_line,
}
use seuss.Session.Replies.{receive-process_reply}
use seuss.Session.History.{Call, connects, receives, step, Happening, did, all_did, happenings, run}

-- How often the promise `when_initialized_` is fulfilled.
abbrev pub setups : List Happening → ℕ
setups [] = 0
setups (did (set_value initialized) ∷ hs) = suc (setups hs)
setups (h ∷ hs) = setups hs

abbrev pub setups_done : InvocationSession → ℕ
setups_done s = if s.is_initialized then 1 else 0

setups-append : (hs ks : List Happening) → setups (hs ++ ks) ≡ setups hs + setups ks
setups-append [] ks = omega arith
setups-append (did (set_value initialized) ∷ hs) ks = omega (arith, setups-append hs ks)
setups-append (h ∷ hs) ks = setups-append hs ks

process_reply-setups :
    (http_status response : Bytes) (s : InvocationSession)
    → setups (all_did (process_reply http_status response s).1) + setups_done s
      ≡ setups_done (process_reply http_status response s).0
unfolding process_reply receive_status receive_response
process_reply-setups http_status response s = ground arith

step-setups :
    (s s' : InvocationSession) (c : Call) (acts : List Action)
    → step s c ≡ ok (s', acts)
    → setups (happenings c acts) + setups_done s ≡ setups_done s'
unfolding step connect on_connected on_close on_abort finish fire send_http_request enable_timer
    disable_timer
step-setups s s' (connects now) acts e = ground arith
step-setups s s' (receives chained reply) acts e =
    let (brace, at, same) = receive-process_reply chained reply s e in
    ground (arith, process_reply-setups (status_line reply) (drop brace reply) s)
step-setups s s' c acts e = ground arith

-- Whatever events come, the initialisation of a session is announced at most once, and
-- `is_initialized` says whether it has been.
pub run-setups :
    (s s' : InvocationSession) (cs : List Call) (hs : List Happening)
    → run s cs ≡ ok (s', hs)
    → setups hs + setups_done s ≡ setups_done s'
unfolding run
run-setups s s' [] hs e = ground arith
run-setups s s' (c ∷ cs) hs e =
    let ((s₁, acts), done, rest) = >>=-eq-ok (step s c) _ e in
    let ((s₂, ks), ran, last) = >>=-eq-ok (run s₁ cs) _ rest in
    ground (
      arith,
      last,
      run-setups s₁ s₂ cs ks ran,
      setups-append (happenings c acts) ks,
      step-setups s s₁ c acts done,
    )
