-- ===== src/Invoker/Defs.antt =====
-- The counters of a core, and the callbacks that carry an invocation through its session.
use seuss.Prelude.{
  ℕ, ◌+◌, ◌-◌, ◌%◌, Bool, true, false, not, List, [], ◌∷◌, ◌++◌, leb, is_empty, if◌then◌else◌,
  Bytes, codes, Result, ok, ◌>>=◌,
}
use seuss.Invocation.{InvocationStats}
use seuss.Hot.Defs.{HotCache, Signal, save_hot_instance}
use seuss.Session.Defs.{
  InvocationSession, Action, Promise, aborted, closed, connected, executed, initialized, finish,
  send_http_request, get_runtime, get_inittime,
}

abbrev pub default_concurrency_limit : ℕ
default_concurrency_limit = 1

-- The members of `Invoker` beside the hot-start cache.
pub record Counters : Type 0 where
  pub request_concurrency : ℕ  -- uint8_t
  pub request_concurrency_limit : ℕ  -- uint16_t
  pub invctr : ℕ  -- uint64_t
  pub port : ℕ  -- uint16_t

abbrev pub base_port : ℕ
base_port = 49160

-- `(1 << 16) - base_port_ - 1`
abbrev pub port_range : ℕ
port_range = 65536 - base_port - 1

-- `get_internal_port` on the core `mine` of `num_cpus`.
unfoldable pub get_internal_port : (num_cpus mine : ℕ) → Counters → ℕ × Counters
get_internal_port num_cpus mine c =
    let port = (c.port + num_cpus) % 65536 in
    ((base_port + (port + mine) % port_range) % 65536, record c { port = port })

-- The test of `Poke`, before it asks for work.
unfoldable pub has_capacity : Counters → Bool
has_capacity c = not (leb c.request_concurrency_limit c.request_concurrency)

-- The start and the end of `Invoke`; its attempts stand between them.
unfoldable pub begin_invoke : Counters → Counters
begin_invoke c = record c {
  request_concurrency = (c.request_concurrency + 1) % 256;
  invctr = (c.invctr + 1) % 18446744073709551616;
}

unfoldable pub end_invoke : Counters → Counters
end_invoke c = record c { request_concurrency = (c.request_concurrency + 255) % 256 }

-- An attempt at an invocation, with the variables that its callbacks capture.
pub record Attempt : Type 0 where
  pub session : InvocationSession
  pub istats : InvocationStats
  pub fid : ℕ
  pub umi_id : ℕ
  pub args : Bytes
  pub code : Bytes

-- What the callbacks make happen outside the core's own state.
pub data Output : Type 0 where
  did : Action → Output
  signal : Signal → Output
  spawn_halt : (umi_id : ℕ) → Output  -- `SignalHalt` in an event of its own
  reply_with : InvocationStats → Bytes → Output  -- `Resolve`
  create_from : (sv umi_id : ℕ) → Output  -- a new instance of a snapshot
  register_port : (umi_id port : ℕ) → Output
  load_and_start : (umi_id : ℕ) → Output
  set_active : (umi_id : ℕ) → Output
  signal_resume : (umi_id : ℕ) → Output
  spawn_poke : Output  -- `Poke` on this core, in an event of its own

abbrev pub all_did : List Action → List Output
all_did [] = []
all_did (a ∷ acts) = did a ∷ all_did acts

abbrev pub all_signals : List Signal → List Output
all_signals [] = []
all_signals (s ∷ ss) = signal s ∷ all_signals ss

abbrev pub After : Type 0
After = Attempt × HotCache × List Output

unfoldable pub send_on :
    (now : ℕ) (path payload : Bytes) (keep_alive : Bool) → Attempt → HotCache → Result After
send_on now path payload keep_alive a hot = do
  (session, acts) ← send_http_request now path payload keep_alive a.session
  ok (record a { session = session }, hot, all_did acts)

-- The callback of `WhenConnected`.
unfoldable pub when_connected : (now : ℕ) → Attempt → HotCache → Result After
when_connected now a hot =
    if not (is_empty a.code)
    then send_on now (codes "/init") a.code true a hot
    else send_on now (codes "/run") a.args false a hot

-- The callback of `WhenInitialized`.
unfoldable pub when_initialized : (now : ℕ) → Attempt → HotCache → Result After
when_initialized now a hot =
    let exec = record a.istats.exec { init_time = get_inittime now a.session } in
    send_on now (codes "/run") a.args false (record a { istats = record a.istats { exec = exec } })
      hot

-- The callback of `WhenExecuted`.
unfoldable pub when_executed : (now : ℕ) → Attempt → HotCache → Result After
when_executed now a hot =
    let exec = record a.istats.exec { status = false; run_time = get_runtime now a.session } in
    let istats = record a.istats { exec = exec } in
    ok (record a { istats = istats }, hot, reply_with istats a.session.reply ∷ [])

-- The callback of `WhenClosed`.
unfoldable pub when_closed : (known : ℕ → Bool) → Attempt → HotCache → Result After
when_closed known a hot = do
  let (session, acts) = finish true a.session
  (saved, hot', signals) ← save_hot_instance known hot a.fid a.umi_id
  let halt = (if not saved then spawn_halt a.umi_id ∷ [] else [])
  ok (record a { session = session }, hot', all_did acts ++ (all_signals signals ++ halt))

-- The callback of `WhenAborted`.
unfoldable pub when_aborted : Attempt → HotCache → Result After
when_aborted a hot =
    let (session, acts) = finish false a.session in
    ok (record a { session = session }, hot, all_did acts ++ spawn_halt a.umi_id ∷ [])

-- The callback of each promise, as `new_invocation_session` sets them.
unfoldable pub callback : (known : ℕ → Bool) (now : ℕ) → Promise → Attempt → HotCache → Result After
callback known now connected a hot = when_connected now a hot
callback known now initialized a hot = when_initialized now a hot
callback known now executed a hot = when_executed now a hot
callback known now closed a hot = when_closed known a hot
callback known now aborted a hot = when_aborted a hot
