-- ===== src/Flow/ServiceRuns.antt =====
-- One message of OpenWhisk, up to its completion (src/openwhisk/kafka.cc and the parts behind it).
use seuss.Prelude.{
  ℕ, ◌≡◌, refl, Bool, List, some, nat_eq, bytes_eq, arith, false, true, [], ◌∷◌, ◌++◌, Bytes, codes,
  length, take, leb, if◌then◌else◌, replicate, length-replicate, Result, ok, panic, ◌>>=◌,
}
use seuss.Prelude.Int.{pos, to_word}
use seuss.Table.{find, emplace}
use seuss.Invocation.{InvocationStats}
use seuss.Root.Defs.{InvokerRoot}
use seuss.Root.Queue.{IsQueued}
use seuss.Channel.Defs.{hosted, SeussChannel, read_at, resolve, receive_message}
use seuss.Openwhisk.Msg.{ActivationMessage, CompletionMessage}
use seuss.Openwhisk.Reader.{Yajl, read_activation}
use seuss.Openwhisk.Couchdb.{get_action, query_if_new, store_answer, code_or_empty}
use seuss.Controller.Defs.{
  Controller, Outgoing, copy_activation_id, new_stats, cpu_of, front, schedule_with_code,
}
use seuss.Controller.Records.{entry_of}
use seuss.Invoker.Defs.{has_capacity}
use seuss.Invoker.Defs
use seuss.Invoker.Starts.{Node, finished}
use seuss.Invoker.Served.{served, replies}
use seuss.Invoker.Life.{served_stats}
use seuss.Invoker.Poke.{poke, runs}
use seuss.Kafka.Defs.{
  Kafka, Environment, FrontEnd, commit, send_request, completed, Turn, polls, payload, pause, run,
  is_answered_at_once,
}
use seuss.Flow.{delivered}
use seuss.Flow.Back.{resolve_reply}
use seuss.Flow.Service.{waiting, service_completes}

abbrev text : Bytes
text = replicate 32 b'a'

-- A reader that finds the same texts in every message.
abbrev same_texts : Yajl
same_texts = record {
  Tree = Unit {0};
  tree_parse = λ text. some tt;
  get_string = λ t path. some text;
  get_number = λ t path. some (pos 1);
  get_object = λ t path. some [];
  get_array = λ t path. some (tt ∷ tt ∷ []);
  as_string = λ t. some (codes "tid");
  as_integer = λ t. pos 1;
}

abbrev env : Environment
env = record {
  hash = length;
  nid_text = λ nid. nid ∷ [];
  id₀ = 0;
  instance₀ = pos 0;
  status₀ = pos 0;
  blocking₀ = false;
  yajl = same_texts;
  http_get = λ address. address;
  code_in = λ text. some (some (codes "x"));
}

abbrev client : Kafka
client = record {
  kafka_broker = codes "k";
  invoker_id = 3;
  invoker_delay = 0;
  mode = codes "default";
}

abbrev message : ActivationMessage
message = record {
  transid = record { name = codes "tid"; id = 1 };
  root_controller_index = record { instance_id = pos 1; name = text };
  activation_id = text;
  revision = text;
  content = codes "{}";
  action = record { path = text; name = text; version = text };
  user = record { subject = text; authkey = text; namespace = record { name = text; uuid = text } };
  blocking = false;
}

reads : read_activation same_texts 0 (pos 0) false (codes "{}") ≡ ok message
unfolding read_activation to_word
reads = refl

abbrev front_end : FrontEnd
front_end = record {
  controller = record { nids = 9 ∷ []; front_end_cpus_map = (9 ∷ [], 3) ∷ []; record_map = [] };
  db = record {
    host = codes "h";
    password = codes "w";
    port = codes "1";
    protocol = codes "http";
    username = codes "u";
    address = codes "a";
    db_entity = codes "e";
    db_cache = [];
  };
}

abbrev after : Controller
after = record front_end.controller { record_map = (3, entry_of 50 1 message) ∷ [] }

abbrev out : Outgoing
out = record {
  nid = 9;
  cpu = 3;
  stats = record {
    transaction_id = 3;
    function_id = 32;
    args_size = 2;
    activation_id = text ++ 0 ∷ 0 ∷ [];
    exec = record { run_time = 0; init_time = 0; status = false };
  };
  args = codes "{}";
  code = codes "x";
}

scheduled :
    schedule_with_code length (λ nid. nid ∷ []) 50 1 front_end.controller message (codes "x")
    ≡ ok (after, out)
unfolding schedule_with_code copy_activation_id read_at new_stats cpu_of front find emplace
scheduled = refl

abbrev root : InvokerRoot
root = record {
  base_um_env = 90;
  preinit_env = 1;
  is_bootstrapped = true;
  request_map = [];
  request_queue = [];
  snapmap = [];
}

root-IsQueued : IsQueued root
unfolding find
root-IsQueued = record { holds = λ tid. refl }

abbrev dirty : ℕ → Bytes
dirty n = replicate n 255

dirty_length : (n : ℕ) → length (dirty n) ≡ n
dirty_length n = length-replicate n 255

abbrev gather : ℕ → Bytes → Result Bytes
gather n bytes = if leb n (length bytes) then ok (take n bytes) else panic

abbrev io : SeussChannel
io = record { io_core = 0 }

abbrev fresh : Node
fresh = record {
  root = root;
  hot = record {
    hot_instance_limit = 4;
    hot_instance_reuse_limit = 300;
    stalled_instance_map = [];
    stalled_instance_fifo = [];
    stalled_instance_usage_count = [];
  };
  counters = record {
    request_concurrency = 2;
    request_concurrency_limit = 12;
    invctr = 9;
    port = 8;
  };
}

abbrev ready : Bytes
ready = codes "HTTP/1.1 200 OK\r\n\r\n{\"OK\":true}"

abbrev reply : Bytes
reply = codes "HTTP/1.1 200 OK\r\n\r\n{\"n\":1}"

abbrev known : ℕ → Bool
known id = true

abbrev sent : InvocationStats
sent = served_stats 2000 3000000 9000000 out.stats

abbrev result : Bytes
result = codes "{\"n\":1}"

abbrev arrived : InvocationStats
arrived = record sent { args_size = 7 }

service_completes_example :
    (root' : InvokerRoot) × (n' : Node) × (outs : List Defs.Output) × (cm : CompletionMessage)
    × (delivered length
          (λ nid. nid ∷ [])
          50
          1
          front_end.controller
          after
          message
          (codes "x")
          out
          dirty
          dirty_length
          80
          gather
          4
          0
          io
          root
        ≡ ok root')
    × (poke known 4 1 70 71 [] []
          (served 1000 2000 3000000 9000000 (some 88) ready reply)
          (record fresh { root = root' })
        ≡ ok (runs (finished true, n', outs)))
    × (replies outs ≡ (sent, result) ∷ [])
    × ((resolve_reply dirty 1 io sent result >>= receive_message 80 gather hosted 2 io)
        ≡ ok (record { io_core = 2 }, resolve arrived result))
    × (run env client
          (polls 50 1 (payload (codes "{}")) ∷ Turn.replies 99 arrived result ∷ [])
          front_end
        ≡ ok (
          waiting env client front_end message front_end.controller,
          commit ∷ send_request out ∷ completed client cm ∷ [],
        ))
    × (cm.response.activation_id ≡ text)
    × (cm.response.result ≡ result)
    × (cm.response.status_code ≡ pos 0)
unfolding find has_capacity get_action is_answered_at_once pause query_if_new store_answer
    code_or_empty
service_completes_example =
    service_completes env client 50 99 1 (codes "{}") front_end after message out dirty dirty_length
      80 gather 4 0 1 2 io io io fresh known 70 71 1000 2000 3000000 9000000 19 19 (some 88) ready
      reply reads refl scheduled root-IsQueued refl refl refl refl refl refl refl (omega arith)
      (omega arith) refl refl refl refl refl refl [] []
