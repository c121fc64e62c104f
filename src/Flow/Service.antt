-- ===== src/Flow/Service.antt =====
-- The whole service: from a message of OpenWhisk to the completion that goes back to it (src/openwhisk/kafka.cc,
-- src/SeussController.cc, src/SeussChannel.cc, src/SeussInvoker.cc).
use seuss.Prelude.{
  ℕ, ◌≡◌, ◌≢◌, refl, sym, ◌∙◌, Bool, true, false, Option, none, some, List, [], ◌∷◌, ◌++◌, nat_eq,
  Bytes, bytes_eq, codes, is_empty, drop, find_first_of, length, Result, ok, ok-injective, ◌>>=◌,
}
use seuss.Prelude.Int.{pos}
use seuss.Table.{find}
use seuss.Invocation.{InvocationStats}
use seuss.Root.Defs.{InvokerRoot}
use seuss.Root.Queue.{IsQueued, view}
use seuss.Channel.Defs.{hosted, SeussChannel, resolve, receive_message}
use seuss.Openwhisk.Msg.{ActivationMessage, CompletionMessage}
use seuss.Openwhisk.Reader.{read_activation}
use seuss.Openwhisk.Couchdb.{get_action}
use seuss.Controller.Defs.{
  Controller, Outgoing, schedule_with_code, schedule_activation, resolve_activation,
}
use seuss.Session.Defs.{status_line}
use seuss.Invoker.Defs.{has_capacity}
use seuss.Invoker.Starts.{Node, Event, finished}
use seuss.Invoker.Poke.{runs, poke}
use seuss.Invoker.Served.{served, replies}
use seuss.Invoker.Life.{served_stats}
use seuss.Kafka.Defs.{
  Kafka, Environment, FrontEnd, commit, send_request, completed, Turn, polls, payload,
  is_answered_at_once, handle_activation, schedule, consume, pause, outputs_of, receive_reply, turn,
  run,
}
use seuss.Invoker.Defs
use seuss.Flow.{delivered}
use seuss.Flow.Back.{resolve_reply, resolve_reply_received, reply_arrives_lem}
use seuss.Flow.Trip.{trip_fulfils}

-- The front end takes an activation from the broker, and later gets its result.
module _ (env : Environment) (k : Kafka) where
  open env use {hash, nid_text, id₀, instance₀, status₀, blocking₀, yajl, http_get, code_in}

  -- The code that the database or its cache has for an action.
  abbrev pub action_code : FrontEnd → ActivationMessage → Bytes
  action_code s am = (get_action http_get code_in s.db am.action).0

  abbrev pub waiting : FrontEnd → ActivationMessage → Controller → FrontEnd
  waiting s am c' = record { controller = c'; db = (get_action http_get code_in s.db am.action).1 }

  consume-schedule :
      (now promise : ℕ) (text : Bytes) (s : FrontEnd) (am : ActivationMessage) (c' : Controller)
      (out : Outgoing)
      → read_activation yajl id₀ instance₀ blocking₀ text ≡ ok am
      → is_answered_at_once env k am ≡ false
      → schedule_with_code hash nid_text now promise s.controller am (action_code s am)
        ≡ ok (c', out)
      → consume env k now promise (payload text) s
        ≡ ok (waiting s am c', commit ∷ send_request out ∷ pause env k)
  unfolding consume handle_activation schedule schedule_activation
  consume-schedule now promise text s am c' out read later e = rw (read, later, e) refl

  run-two :
      (now later promise : ℕ) (text : Bytes) (s : FrontEnd) (am : ActivationMessage)
      (c' c'' : Controller) (out : Outgoing) (istats : InvocationStats) (ret : Bytes)
      (cm : CompletionMessage)
      → consume env k now promise (payload text) s
        ≡ ok (waiting s am c', commit ∷ send_request out ∷ pause env k)
      → resolve_activation instance₀ status₀ later c' istats ret ≡ (c'', some (promise, cm))
      → run env k (polls now promise (payload text) ∷ Turn.replies later istats ret ∷ []) s
        ≡ ok (waiting s am c'', commit ∷ send_request out ∷ (pause env k ++ completed k cm ∷ []))
  unfolding run turn receive_reply outputs_of
  run-two now later promise text s am c' c'' out istats ret cm taken resolved =
      rw (taken, resolved) refl

module _ (env : Environment) (k : Kafka) (now later promise : ℕ) (text : Bytes) (s : FrontEnd)
    (c' : Controller) (am : ActivationMessage) (out : Outgoing) (new_bytes : ℕ → Bytes)
    (allocates : (n : ℕ) → length (new_bytes n) ≡ n) (header_size : ℕ)
    (gather : ℕ → Bytes → Result Bytes) (num_cpus io mine front : ℕ)
    (channel channel' receiver : SeussChannel) (n : Node) (known : ℕ → Bool)
    (warm_id cold_id t₀ t₁ t₂ t₃ brace brace' : ℕ) (snap : Option ℕ) (ready reply : Bytes)
    (read : read_activation env.yajl env.id₀ env.instance₀ env.blocking₀ text ≡ ok am)
    (not_at_once : is_answered_at_once env k am ≡ false)
    (e : schedule_with_code env.hash env.nid_text now promise s.controller am
        (action_code env k s am)
      ≡ ok (c', out))
    (v : IsQueued n.root) (idle : view n.root ≡ []) (free : has_capacity n.counters ≡ true)
    (booted : n.root.is_bootstrapped ≡ true)
    (no_instance : find (env.hash am.revision) n.hot.stalled_instance_map ≡ none)
    (no_snapshot : find (env.hash am.revision) n.root.snapmap ≡ none)
    (some_code : is_empty (action_code env k s am) ≡ false)
    (some_args : is_empty am.content ≡ false) (has_fid : env.hash am.revision ≢ 0)
    (has_id : cold_id ≢ 0) (is_known : known cold_id ≡ true)
    (at : find_first_of b'{' ready ≡ some brace)
    (good : status_line ready ≡ codes "HTTP/1.1 200 OK")
    (same : drop brace ready ≡ codes "{\"OK\":true}") (at' : find_first_of b'{' reply ≡ some brace')
    (good' : status_line reply ≡ codes "HTTP/1.1 200 OK") where
  -- The record that is sent with the reply, and how it arrives.
  abbrev measured : InvocationStats
  measured = served_stats t₁ t₂ t₃ out.stats

  abbrev arrived : InvocationStats
  arrived = record measured { args_size = length (drop brace' reply) }

  -- A message whose text reads as an activation that is not answered at once, and that the front end can schedule with
  -- the code it has for the action, on a node that is booted, has capacity and no request waiting, where the function
  -- has neither a stalled instance nor a snapshot, the code and the arguments are not empty, the revision does not hash
  -- to 0, the manager finds a new instance by its id, which is not 0, and that instance answers each of its two requests
  -- with 200 OK and a body that starts at a brace, the first of them {"OK":true}: the request is put in the queue of
  -- the node, a core that is poked runs it and says that it started one and sends exactly one reply, the reply gets to
  -- the front end as it was sent but for its size, and the consumer, in one turn for the message and one for the reply,
  -- commits the message, sends the request, waits as it does after each message, and sends the completion of the
  -- activation, with its id, the result and status 0, and has no record of it any more.
  pub service_completes :
      (hot_es warm_es : List Event)
      → (root' : InvokerRoot) × (n' : Node) × (outs : List Defs.Output) × (cm : CompletionMessage)
        × (delivered env.hash env.nid_text now promise s.controller c' am
              (action_code env k s am)
              out
              new_bytes
              allocates
              header_size
              gather
              num_cpus
              io
              channel
              n.root
            ≡ ok root')
        × (poke known num_cpus mine warm_id cold_id hot_es warm_es
              (served t₀ t₁ t₂ t₃ snap ready reply)
              (record n { root = root' })
            ≡ ok (runs (finished true, n', outs)))
        × (replies outs ≡ (measured, drop brace' reply) ∷ [])
        × ((resolve_reply new_bytes mine channel' measured (drop brace' reply)
              >>= receive_message header_size gather hosted front receiver)
            ≡ ok (record receiver { io_core = front }, resolve arrived (drop brace' reply)))
        × (run env k
              (polls now promise (payload text)
                ∷ Turn.replies later arrived (drop brace' reply)
                ∷ [])
              s
            ≡ ok (
              waiting env k s am (record c' { record_map = s.controller.record_map }),
              commit ∷ send_request out ∷ (pause env k ++ completed k cm ∷ []),
            ))
        × (cm.response.activation_id ≡ am.activation_id)
        × (cm.response.result ≡ drop brace' reply)
        × (cm.response.status_code ≡ pos 0)
  service_completes hot_es warm_es =
      let (root', n', outs, cm, taken, poked, sent, fulfils, id, result, status) =
        trip_fulfils env.hash env.nid_text now later promise s.controller c' am
          (action_code env k s am) out new_bytes allocates header_size gather num_cpus io mine front
          channel channel' receiver env.instance₀ env.status₀ n known warm_id cold_id t₀ t₁ t₂ t₃
          brace brace' snap ready reply e v idle free booted no_instance no_snapshot some_code
          some_args has_fid has_id is_known at good same at' good' hot_es warm_es in
      let resolved = ok-injective (
        sym (
          reply_arrives_lem new_bytes allocates header_size gather env.instance₀ env.status₀ later
            mine front channel' receiver c' measured (drop brace' reply))
        ∙ fulfils) in
      (
        root',
        n',
        outs,
        cm,
        taken,
        poked,
        sent,
        resolve_reply_received new_bytes allocates header_size gather env.instance₀ env.status₀
            later mine front channel' receiver measured (drop brace' reply),
        run-two env k now later promise text s am c'
            (record c' { record_map = s.controller.record_map }) out arrived (drop brace' reply) cm
            (consume-schedule env k now promise text s am c' out read not_at_once e) resolved,
        id,
        result,
        status,
      )
