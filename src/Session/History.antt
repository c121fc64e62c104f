-- ===== src/Session/History.antt =====
-- The handlers of a session in the order in which events call them.
use seuss.Prelude.{ℕ, Bool, List, [], ◌∷◌, ◌++◌, Bytes, Result, ok, ◌>>=◌}
use seuss.Session.Defs.{
  InvocationSession, Action, Effect, connect, on_connected, on_close, on_abort, finish, receive,
  fire, send_http_request,
}

pub data Call : Type 0 where
  connects connects_done fires : (now : ℕ) → Call
  closes aborts : Call
  finishes : (status : Bool) → Call
  receives : (is_chained : Bool) → Bytes → Call
  sends : (now : ℕ) (path payload : Bytes) (keep_alive : Bool) → Call

unfoldable pub step : InvocationSession → Call → Result Effect
step s (connects now) = connect now s
step s (connects_done now) = ok (on_connected now s)
step s (fires now) = ok (fire now s)
step s closes = ok (on_close s)
step s aborts = ok (on_abort s)
step s (finishes status) = ok (finish status s)
step s (receives is_chained reply) = receive is_chained reply s
step s (sends now path payload keep_alive) = send_http_request now path payload keep_alive s

-- What happens to a session and to the timer: a call into EbbRT, or the end of the timer.
pub data Happening : Type 0 where
  did : Action → Happening
  timer_ended : Happening

abbrev pub all_did : List Action → List Happening
all_did [] = []
all_did (a ∷ acts) = did a ∷ all_did acts

abbrev pub happenings : Call → List Action → List Happening
happenings (fires now) acts = timer_ended ∷ all_did acts
happenings _ acts = all_did acts

unfoldable pub run : InvocationSession → List Call → Result (InvocationSession × List Happening)
run s [] = ok (s, [])
run s (c ∷ cs) = do (s', acts) ← step s c; (s'', hs) ← run s' cs; ok (s'', happenings c acts ++ hs)
