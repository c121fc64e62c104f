-- ===== src/Invoker/Served.antt =====
-- The steps of an attempt that goes well.
use seuss.Prelude.{
  if◌then◌else◌, Option, Bool-cases, inl, inr, ◌++◌, none, ℕ, nat_eq, ◌≡◌, ◌∙◌, ◌≢◌, ◌+◌, Bool,
  true, false, some, List, [], ◌∷◌, ok, Bytes, codes, is_empty, drop, find_first_of, bytes_eq,
  arith,
}
use seuss.Invocation.{InvocationStats}
use seuss.Root.Defs.{InvokerRoot}
use seuss.Root.Snapshots.{fits, stored, set_snapshot_lem}
use seuss.Hot.Defs.{HotCache, set_inactive, signal_yield}
use seuss.Hot.Invariant.{can_save, saved}
use seuss.Session.Defs.{
  InvocationSession, receive, status_line, send_http_request, on_connected, timer_stop, send,
  set_value, connected, initialized, executed, closed, get_inittime, finish, disable_timer,
  new_session, enable_timer, timer_start, spawn_set_value,
}
use seuss.Session.History.{connects, connects_done, receives, closes}
use seuss.Invoker.Defs.{
  when_connected, when_initialized, when_closed, send_on, reply_with, Output, Attempt, did,
  create_from, signal, spawn_halt,
}
use seuss.Invoker.Starts.{Job, event, captured, events, handler, Event, calls_back, status_of}
use seuss.Session.Http.{http_post_request}
use seuss.Invoker.Events.{connecting}
use seuss.Invoker.Callbacks.{finished, finish_calls, when_closed_lem}
use seuss.Session.Replies.{receive_ok}

-- What goes out to the front end.
abbrev pub replies : List Output → List (InvocationStats × Bytes)
replies [] = []
replies (reply_with istats res ∷ outs) = (istats, res) ∷ replies outs
replies (o ∷ outs) = replies outs

-- The snapshot of an instance is captured, or not.
abbrev pub snapshots : Option ℕ → List Event
snapshots none = []
snapshots (some sv) = captured sv ∷ []

-- The snapshot cache after it.
abbrev pub kept_root : (checkpoint : Bool) → InvokerRoot → (fid : ℕ) → Option ℕ → InvokerRoot
kept_root checkpoint r fid none = r
kept_root false r fid (some sv) = r
kept_root true r fid (some sv) = if fits r fid then stored r fid sv else r

-- The instance accepts the connection, says that it is ready, and replies.
abbrev pub served : (t₀ t₁ t₂ t₃ : ℕ) (snap : Option ℕ) (ready reply : Bytes) → List Event
served t₀ t₁ t₂ t₃ snap ready reply =
    handler (connects t₀)
    ∷ handler (connects_done t₁)
    ∷ calls_back t₁ connected
    ∷ (snapshots snap
        ++ handler (receives false ready)
          ∷ calls_back t₂ initialized
          ∷ handler (receives false reply)
          ∷ calls_back t₃ executed
          ∷ handler closes
          ∷ calls_back t₃ closed
          ∷ [])

abbrev pub up : (t₁ port : ℕ) → InvocationSession
up t₁ port = record (connecting 0 port) { is_connected = true; timeout = t₁ + 60000000000 }

pub on_connected-up :
    (t₀ t₁ port : ℕ)
    → on_connected t₁ (connecting t₀ port)
      ≡ (up t₁ port, timer_stop ∷ timer_start 60000000 ∷ spawn_set_value connected ∷ [])
unfolding on_connected enable_timer disable_timer new_session
on_connected-up t₀ t₁ port = ground arith

-- The two requests.
abbrev pub init_sent : (t₁ : ℕ) → Attempt → Attempt
init_sent t₁ a = record a {
  session = record a.session {
    previous_request = http_post_request (codes "/init") a.code true;
    init_start_time = t₁;
  };
}

pub when_connected-init :
    (t₁ : ℕ) (a : Attempt) (hot : HotCache)
    → is_empty a.code ≡ false
    → when_connected t₁ a hot
      ≡ ok (init_sent t₁ a, hot, did (send (http_post_request (codes "/init") a.code true)) ∷ [])
unfolding when_connected send_on send_http_request
when_connected-init t₁ a hot some_code = simp some_code

abbrev pub run_sent : (t₂ : ℕ) → Attempt → Attempt
run_sent t₂ a = record a {
  session = record a.session {
    previous_request = http_post_request (codes "/run") a.args false;
    run_start_time = t₂;
  };
  istats = record a.istats {
    exec = record a.istats.exec { init_time = get_inittime t₂ a.session };
  };
}

pub when_initialized-run :
    (t₂ : ℕ) (a : Attempt) (hot : HotCache)
    → is_empty a.args ≡ false
    → when_initialized t₂ a hot
      ≡ ok (run_sent t₂ a, hot, did (send (http_post_request (codes "/run") a.args false)) ∷ [])
unfolding when_initialized send_on send_http_request
when_initialized-run t₂ a hot some_args = simp some_args

-- The two answers.
pub receive-ready :
    (ready : Bytes) (brace : ℕ) (s : InvocationSession)
    → find_first_of b'{' ready ≡ some brace
    → status_line ready ≡ codes "HTTP/1.1 200 OK"
    → drop brace ready ≡ codes "{\"OK\":true}"
    → s.is_initialized ≡ false
    → receive false ready s ≡ ok (record s { is_initialized = true }, set_value initialized ∷ [])
receive-ready ready brace s at good same new = receive_ok ready brace s at good ∙ simp (same, new)

pub receive-reply :
    (reply : Bytes) (brace : ℕ) (s : InvocationSession)
    → find_first_of b'{' reply ≡ some brace
    → status_line reply ≡ codes "HTTP/1.1 200 OK"
    → s.is_initialized ≡ true
    → receive false reply s ≡ ok (record s { reply = drop brace reply }, set_value executed ∷ [])
receive-reply reply brace s at good done = receive_ok reply brace s at good ∙ ground (arith, done)

-- The cache after an instance is offered to it.
abbrev pub kept_hot : HotCache → (fid id : ℕ) → HotCache
kept_hot hot fid id = if can_save hot fid id then saved hot fid id else hot

-- The instances that are made.
abbrev pub made : List Output → List ℕ
made [] = []
made (create_from sv umi_id ∷ outs) = umi_id ∷ made outs
made (o ∷ outs) = made outs

abbrev close_calls : Attempt → HotCache → List Output
close_calls a hot =
    finish_calls true a
    ++ (if can_save hot a.fid a.umi_id
        then signal (set_inactive a.umi_id) ∷ signal (signal_yield a.umi_id) ∷ []
        else spawn_halt a.umi_id ∷ [])

-- The end in full: what becomes of the cache, and that no instance is made.
pub when_closed-kept_hot :
    (known : ℕ → Bool) (a : Attempt) (hot : HotCache)
    → a.fid ≢ 0
    → a.umi_id ≢ 0
    → known a.umi_id ≡ true
    → a.session.timer_set ≡ false
    → (a' : Attempt) × (outs : List Output) × (when_closed known a hot
        ≡ ok (a', kept_hot hot a.fid a.umi_id, outs))
      × (status_of outs ≡ some true)
      × (replies outs ≡ [])
      × (made outs ≡ [])
unfolding finish disable_timer status_of
when_closed-kept_hot known a hot f u k off = (
  finished true a,
  close_calls a hot,
  closes_with,
  ground (arith, off),
  ground (arith, off),
  ground (arith, off),
)
  where
    closes_with :
        when_closed known a hot
        ≡ ok (finished true a, kept_hot hot a.fid a.umi_id, close_calls a hot)
    closes_with = elim (Bool-cases (can_save hot a.fid a.umi_id)) [
      | inl fits ↦ when_closed_lem known a hot f u k ∙ rw fits
      | inr not_fits ↦ when_closed_lem known a hot f u k ∙ rw not_fits
    ]

-- An attempt that goes well: it succeeds, one reply goes out, no further instance is made, and of the
-- node nothing changes but that the instance was offered to the cache, and the snapshot cache.
abbrev pub EndsWell :
    (known : ℕ → Bool) (checkpoint : Bool)
    → List Event
    → Job
    → (root : InvokerRoot) (sent : InvocationStats × Bytes) → Type 0
EndsWell known checkpoint es j root sent =
    (j' : Job) × (outs : List Output) × (events known checkpoint es j ≡ ok (j', outs))
    × (status_of outs ≡ some true)
    × (replies outs ≡ sent ∷ [])
    × (made outs ≡ [])
    × (j'.node
        ≡ record j.node { root = root; hot = kept_hot j.node.hot j.attempt.fid j.attempt.umi_id })

pub events-snapshots :
    (known : ℕ → Bool) (checkpoint : Bool) (snap : Option ℕ) (es : List Event) (j : Job) {j' : Job}
    {outs : List Output}
    → j.node.root.is_bootstrapped ≡ true
    → events known checkpoint es (record j {
      node = record j.node { root = kept_root checkpoint j.node.root j.attempt.fid snap };
    })
      ≡ ok (j', outs)
    → events known checkpoint (snapshots snap ++ es) j ≡ ok (j', outs)
unfolding events event
events-snapshots known checkpoint none es j booted later = later
events-snapshots known false (some sv) es j booted later = rw later
events-snapshots known true (some sv) es j booted later =
    elim (Bool-cases (fits j.node.root j.attempt.fid)) [
      | inl new ↦ rw (set_snapshot_lem j.node.root j.attempt.fid sv booted, new, rw new at later)
      | inr old ↦ rw (set_snapshot_lem j.node.root j.attempt.fid sv booted, old, rw old at later)
    ]
