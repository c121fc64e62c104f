-- ===== src/Kafka/Defs.antt =====
-- src/openwhisk/kafka.cc: one turn of each loop.
use seuss.Prelude.{
  ℕ, Bool, true, false, Option, none, some, List, [], ◌∷◌, ◌++◌, Bytes, bytes_eq, ◌==◌, codes,
  is_empty, ltb, if◌then◌else◌, Result, ok, ◌>>=◌,
}
use seuss.Prelude.Int.{ℤ, pos, of_word}
use seuss.Prelude.Decimal.{to_string}
use seuss.Invocation.{InvocationStats}
use seuss.Openwhisk.Msg.{PingMessage, ActivationMessage, CompletionMessage, new_completion}
use seuss.Openwhisk.Json.{ping_to_json, completion_to_json}
use seuss.Openwhisk.Reader.{Yajl, read_activation}
use seuss.Openwhisk.Couchdb.{Couchdb}
use seuss.Controller.Defs.{Controller, Outgoing, schedule_activation, resolve_activation}

-- The globals of the client, with the mode that `main` has set.
pub record Kafka : Type 0 where
  pub kafka_broker : Bytes
  pub invoker_id : ℕ
  pub invoker_delay : ℕ
  pub mode : Bytes

unfoldable pub or_kept {ℓ} : {A : Type ℓ} → Option A → A → A
or_kept none old = old
or_kept (some new) old = new

abbrev pub default_topic : Kafka → Bytes
default_topic k = codes "invoker" ++ to_string k.invoker_id

-- `init`, by the three options that it reads: the result, and the topic that is made sure of.
unfoldable pub init :
    (kafka_brokers : Option Bytes) (kafka_topic invoker_delay : Option ℕ)
    → Kafka
    → Bool × Kafka × Option Bytes
unfolding or_kept
init kafka_brokers kafka_topic invoker_delay k =
    let k' = record k {
      kafka_broker = or_kept kafka_brokers k.kafka_broker;
      invoker_id = or_kept kafka_topic k.invoker_id;
      invoker_delay = or_kept invoker_delay k.invoker_delay;
    } in
    if is_empty k'.kafka_broker then (false, k', none) else (true, k', some (default_topic k'))

-- A message that is produced under a topic, one that is committed, and a pause.
pub data Output : Type 0 where
  produce : (topic payload : Bytes) → Output
  commit : Output
  send_request : Outgoing → Output
  sleep : (ms : ℕ) → Output

-- One turn of `ping_producer_loop`. The message is made before the loop.
unfoldable pub heartbeat : Kafka → List Output
heartbeat k =
    let ping : PingMessage = record {
      name = record { instance_id = of_word k.invoker_id; name = [] };
    } in
    sleep 1000 ∷ produce (codes "health") (ping_to_json ping) ∷ []

-- The completion as it goes out, with the number of this invoker.
unfoldable pub completed : Kafka → CompletionMessage → Output
completed k cm = produce (codes "completed0") (
    completion_to_json
      (record cm { invoker = record cm.invoker { instance_id = of_word k.invoker_id } }))

-- What a poll gives.
pub data Polled : Type 0 where
  nothing failure : Polled
  payload : Bytes → Polled

pub record FrontEnd : Type 0 where
  pub controller : Controller
  pub db : Couchdb

-- A turn of the loop, or a reply that comes in.
pub data Turn : Type 0 where
  polls : (now promise : ℕ) → Polled → Turn
  replies : (now : ℕ) → InvocationStats → Bytes → Turn

-- The hash of a text, the text of a network id, what members without a value hold, and the libraries for
-- JSON and for the database.
pub record Environment : Type 1 where
  pub hash : Bytes → ℕ
  pub nid_text : ℕ → Bytes
  pub id₀ : ℕ
  pub instance₀ : ℤ
  pub status₀ : ℤ
  pub blocking₀ : Bool
  pub yajl : Yajl
  pub http_get : Bytes → Bytes
  pub code_in : Bytes → Option (Option Bytes)

module _ (env : Environment) (k : Kafka) where
  open env use {hash, nid_text, id₀, instance₀, status₀, blocking₀, yajl, http_get, code_in}

  -- The tests of the health and the null mode are answered at once, as a success.
  unfoldable pub is_answered_at_once : ActivationMessage → Bool
  is_answered_at_once am =
      if k.mode == codes "null" then true else am.action.name == codes "invokerHealthTestAction0"

  unfoldable pub answer_at_once : ActivationMessage → Output
  answer_at_once am =
      let cm = new_completion instance₀ status₀ am in
      completed k (record cm { response = record cm.response { status_code = pos 0 } })

  unfoldable pub schedule :
      (now promise : ℕ) → FrontEnd → ActivationMessage → Result (FrontEnd × List Output)
  schedule now promise s am = do
    (controller, db, out) ←
        schedule_activation hash nid_text http_get code_in now promise s.controller s.db am []
    ok (record { controller = controller; db = db }, send_request out ∷ [])

  unfoldable pub handle_activation :
      (now promise : ℕ) → FrontEnd → ActivationMessage → Result (FrontEnd × List Output)
  unfolding is_answered_at_once answer_at_once schedule
  handle_activation now promise s am =
      if is_answered_at_once am then ok (s, answer_at_once am ∷ []) else schedule now promise s am

  unfoldable pub pause : List Output
  pause = if ltb 0 k.invoker_delay then sleep k.invoker_delay ∷ [] else []

  -- One turn of `activation_consumer_loop`, with what the poll gives and the promise that the
  -- controller makes.
  unfoldable pub consume : (now promise : ℕ) → Polled → FrontEnd → Result (FrontEnd × List Output)
  unfolding handle_activation pause
  consume now promise nothing s = ok (s, [])
  consume now promise failure s = ok (s, pause)
  consume now promise (payload text) s = do
    am ← read_activation yajl id₀ instance₀ blocking₀ text
    (s', outs) ← handle_activation now promise s am
    ok (s', commit ∷ (outs ++ pause))

  -- A reply of a node comes in; where it fulfils a promise, the completion goes out.
  unfoldable pub outputs_of : Option (ℕ × CompletionMessage) → List Output
  outputs_of none = []
  outputs_of (some (promise, cm)) = completed k cm ∷ []

  unfoldable pub receive_reply :
      (now : ℕ) → InvocationStats → Bytes → FrontEnd → FrontEnd × List Output
  unfolding outputs_of
  receive_reply now istats res s =
      let (controller, done) = resolve_activation instance₀ status₀ now s.controller istats res in
      (record s { controller = controller }, outputs_of done)

  unfoldable pub turn : Turn → FrontEnd → Result (FrontEnd × List Output)
  unfolding consume receive_reply
  turn (polls now promise p) s = consume now promise p s
  turn (replies now istats res) s = ok (receive_reply now istats res s)

  unfoldable pub run : List Turn → FrontEnd → Result (FrontEnd × List Output)
  unfolding turn
  run [] s = ok (s, [])
  run (t ∷ ts) s = do (s', outs) ← turn t s; (s'', more) ← run ts s'; ok (s'', outs ++ more)
