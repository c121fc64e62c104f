-- ===== src/Invoker/Events.antt =====
-- The events of an attempt, one at a time, and the first events of every session.
use seuss.Prelude.{ℕ, nat_eq, ◌≡◌, refl, ◌≢◌, ◌≤◌, ◌+◌, Bool, true, List, [], ◌∷◌, ◌++◌, ok, arith}
use seuss.Hot.Defs.{HotCache}
use seuss.Session.Defs.{
  InvocationSession, Action, Promise, aborted, disable_timer, new_session, connect, fire, on_abort,
  enable_timer, connect_to, timer_start, spawn_set_value,
}
use seuss.Session.History.{step, Call}
use seuss.Invoker.Defs.{callback, Output, all_did, Attempt}
use seuss.Invoker.Starts.{Job, handler, Event, calls_back, event, events}

-- No event, or one more in front.
pub events-none :
    (known : ℕ → Bool) (checkpoint : Bool) (j : Job) → events known checkpoint [] j ≡ ok (j, [])
unfolding events
events-none known checkpoint j = refl

pub events-handler :
    (known : ℕ → Bool) (checkpoint : Bool) (c : Call) (es : List Event) (j : Job) {j' : Job}
    {s : InvocationSession} {acts : List Action} {outs : List Output}
    → step j.attempt.session c ≡ ok (s, acts)
    → events known checkpoint es (record j { attempt = record j.attempt { session = s } })
      ≡ ok (j', outs)
    → events known checkpoint (handler c ∷ es) j ≡ ok (j', all_did acts ++ outs)
unfolding events event
events-handler known checkpoint c es j now later = rw (now, later)

pub events-calls_back :
    (known : ℕ → Bool) (checkpoint : Bool) (t : ℕ) (p : Promise) (es : List Event) (j : Job)
    {j' : Job} {a : Attempt} {hot : HotCache} {first outs : List Output}
    → callback known t p j.attempt j.node.hot ≡ ok (a, hot, first)
    → events known checkpoint es (record { node = record j.node { hot = hot }; attempt = a })
      ≡ ok (j', outs)
    → events known checkpoint (calls_back t p ∷ es) j ≡ ok (j', first ++ outs)
unfolding events event
events-calls_back known checkpoint t p es j now later = rw (now, later)

-- The first call of a new session.
abbrev pub connecting : (t port : ℕ) → InvocationSession
connecting t port = record (new_session port) { timer_set = true; timeout = t + 5000000000 }

pub connect-new_session :
    (t port : ℕ)
    → port ≢ 0
    → connect t (new_session port)
      ≡ ok (connecting t port, connect_to port ∷ timer_start 5000000 ∷ [])
unfolding connect enable_timer new_session
connect-new_session t port p = ground arith

pub fire-connecting :
    (t now port : ℕ)
    → t + 5000000000 ≤ now
    → fire now (connecting t port) ≡ (new_session port, spawn_set_value aborted ∷ [])
unfolding fire on_abort disable_timer new_session
fire-connecting t now port late = ground arith
