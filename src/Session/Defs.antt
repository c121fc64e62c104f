-- ===== src/Session/Defs.antt =====
-- The state of `InvocationSession` and its handlers.
use seuss.Prelude.{
  ℕ, ◌+◌, ◌-◌, ◌*◌, ◌/◌, Bool, true, false, not, ◌&&◌, ◌||◌, none, some, List, [], ◌∷◌, ◌++◌, ◌==◌,
  nat_eq, bytes_eq, leb, is_empty, if◌then◌else◌, Bytes, codes, take, drop, find_first_of, Result,
  ok, ◌>>=◌, ◌>>◌, kassert, expect,
}
use seuss.Prelude.Clock.{elapsed}
use seuss.Session.Http.{http_post_request}

pub data Promise : Type 0 where
  aborted closed connected executed initialized : Promise

-- A call into EbbRT.
pub data Action : Type 0 where
  set_value : Promise → Action
  spawn_set_value : Promise → Action  -- in an event of its own
  set_finished : Bool → Action
  timer_start : (microseconds : ℕ) → Action
  timer_stop : Action
  connect_to : (src_port : ℕ) → Action  -- to port 8080 of the instance
  disconnect : Action
  send : Bytes → Action

pub record InvocationSession : Type 0 where
  pub is_connected : Bool
  pub is_initialized : Bool
  pub src_port : ℕ
  pub timer_set : Bool
  pub timeout : ℕ
  pub init_start_time : ℕ
  pub run_start_time : ℕ
  pub previous_request : Bytes
  pub reply : Bytes

abbrev pub Effect : Type 0
Effect = InvocationSession × List Action

-- The constructor, with the time points at the epoch.
unfoldable pub new_session : ℕ → InvocationSession
new_session src_port = record {
  is_connected = false;
  is_initialized = false;
  src_port = src_port;
  timer_set = false;
  timeout = 0;
  init_start_time = 0;
  run_start_time = 0;
  previous_request = [];
  reply = [];
}

unfoldable pub enable_timer : (now : ℕ) → InvocationSession → Effect
enable_timer now s =
    if s.timer_set || leb s.timeout now
    then (s, [])
    else (record s { timer_set = true }, timer_start ((s.timeout - now) / 1000) ∷ [])

unfoldable pub disable_timer : InvocationSession → Effect
disable_timer s =
    (record s { timer_set = false; timeout = 0 }, if s.timer_set then timer_stop ∷ [] else [])

unfoldable pub connect : (now : ℕ) → InvocationSession → Result Effect
connect now s = do
  kassert (not s.is_connected)
  kassert (not (s.src_port == 0))
  let (s', started) = enable_timer now (record s { timeout = now + 5000 * 1000000 })
  ok (s', connect_to s.src_port ∷ started)

unfoldable pub on_connected : (now : ℕ) → InvocationSession → Effect
on_connected now s =
    let (s', stopped) = disable_timer (record s { is_connected = true }) in
    let (s'', started) = enable_timer now (record s' { timeout = now + 60 * 1000000000 }) in
    (s'', stopped ++ started ++ spawn_set_value connected ∷ [])

unfoldable pub on_close : InvocationSession → Effect
on_close s =
    let (s', stopped) = disable_timer s in
    (record s' { is_connected = false }, stopped ++ disconnect ∷ spawn_set_value closed ∷ [])

unfoldable pub on_abort : InvocationSession → Effect
on_abort s =
    let (s', stopped) = disable_timer s in
    (record s' { is_connected = false }, stopped ++ spawn_set_value aborted ∷ [])

unfoldable pub finish : (status : Bool) → InvocationSession → Effect
finish status s = let (s', stopped) = disable_timer s in (s', stopped ++ set_finished status ∷ [])

-- The first part of `Receive`: what a failed request does.
unfoldable pub receive_status : (http_status response : Bytes) → InvocationSession → Effect
receive_status http_status response s =
    if http_status == codes "HTTP/1.1 200 OK"
    then (s, [])
    else (record s { reply = response }, set_value aborted ∷ disconnect ∷ [])

-- The second part of `Receive`, which runs after a failed request too.
unfoldable pub receive_response : (response : Bytes) → InvocationSession → Effect
receive_response response s =
    if response == codes "{\"OK\":true}" && not s.is_initialized
    then (record s { is_initialized = true }, set_value initialized ∷ [])
    else (record s { reply = response }, set_value executed ∷ [])

-- `reply.substr(0, reply.find_first_of("\r"))`
abbrev pub status_line : Bytes → Bytes
status_line reply = elim (find_first_of b'\r' reply) [ none ↦ reply | some i ↦ take i reply ]

-- `Receive` past the extraction of the two texts.
unfoldable pub process_reply : (http_status response : Bytes) → InvocationSession → Effect
process_reply http_status response s =
    let (s', failed) = receive_status http_status response s in
    let (s'', done) = receive_response response s' in (s'', failed ++ done)

-- `Receive`. `substr` throws if there is no brace, and nothing catches.
unfoldable pub receive : (is_chained : Bool) → Bytes → InvocationSession → Result Effect
receive is_chained reply s = do
  kassert (not is_chained)
  brace ← expect (find_first_of b'{' reply)
  ok (process_reply (status_line reply) (drop brace reply) s)

-- `Fire`, at the end of the timer.
unfoldable pub fire : (now : ℕ) → InvocationSession → Effect
fire now s =
    let s' = record s { timer_set = false } in
    if not (s.timeout == 0) && leb s.timeout now
    then on_abort (record s' { timeout = 0 })
    else (s', [])

unfoldable pub send_http_request :
    (now : ℕ) (path payload : Bytes) (keep_alive : Bool) → InvocationSession → Result Effect
send_http_request now path payload keep_alive s = do
  kassert (not (is_empty payload))
  let msg = http_post_request path payload keep_alive
  let s' = record s { previous_request = msg }
  let timed =
      (if path == codes "/init"
        then record s' { init_start_time = now }
        else if path == codes "/run"
        then record s' { run_start_time = now }
        else s')
  ok (timed, send msg ∷ [])

unfoldable pub get_runtime : (now : ℕ) → InvocationSession → ℕ
get_runtime now s = elapsed now s.run_start_time

unfoldable pub get_inittime : (now : ℕ) → InvocationSession → ℕ
get_inittime now s = elapsed now s.init_start_time
