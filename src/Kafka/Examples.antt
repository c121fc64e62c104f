-- ===== src/Kafka/Examples.antt =====
-- The client on small inputs, and the witnesses.
use seuss.Prelude.{
  ℕ, ◌+◌, ◌≡◌, refl, true, false, none, some, List, [], ◌∷◌, Bytes, codes, length, replicate, ok,
}
use seuss.Prelude.Int.{pos}
use seuss.Prelude.Decimal.{to_string}
use seuss.Table.{find, erase}
use seuss.Invocation.{InvocationStats}
use seuss.Openwhisk.Msg.{ActivationMessage}
use seuss.Openwhisk.Reader.{Yajl, read_activation}
use seuss.Controller.Defs.{complete, resolve_record, resolve_activation}
use seuss.Controller.Records.{entry_of}
use seuss.Kafka.Defs.{
  answer_at_once, completed, commit, Kafka, Environment, FrontEnd, Turn, polls, replies, payload,
  nothing, Output, run, init,
}
use seuss.Openwhisk.Grammar.{
  Value, null, number, string, object, no_member, member, text_of, is_string, is_number, is_blank,
  is_proper,
}
use seuss.Openwhisk.Completed.{is_plain_message}
use seuss.Kafka.Texts.{AreTexts}
use seuss.Kafka.Loops.{
  beats, ping_producer_loop, activation_consumer_loop, connect, connect-AreTexts,
}
use seuss.Kafka.Answers.{answers, payloads, waiting, run-answers}

-- A reader that finds the same text everywhere.
abbrev health_test : Yajl
health_test = record {
  Tree = Unit {0};
  tree_parse = λ text. some tt;
  get_string = λ t path. some (codes "invokerHealthTestAction0");
  get_number = λ t path. some (pos 1);
  get_object = λ t path. some [];
  get_array = λ t path. none;
  as_string = λ t. none;
  as_integer = λ t. pos 0;
}

abbrev env : Environment
env = record {
  hash = length;
  nid_text = λ nid. nid ∷ [];
  id₀ = 0;
  instance₀ = pos 0;
  status₀ = pos 0;
  blocking₀ = false;
  yajl = health_test;
  http_get = λ address. address;
  code_in = λ text. none;
}

abbrev client : Kafka
client = record {
  kafka_broker = codes "k";
  invoker_id = 3;
  invoker_delay = 0;
  mode = codes "default";
}

init_names_topic :
    init none (some 12) none client
    ≡ (true, record client { invoker_id = 12 }, some (codes "invoker12"))
unfolding init to_string
init_names_topic = refl

abbrev message : ActivationMessage
message = record {
  transid = record { name = codes "tidA"; id = 1 };
  root_controller_index = record { instance_id = pos 0; name = [] };
  activation_id = replicate 32 b'a';
  revision = codes "rev";
  content = codes "{}";
  action = record { path = codes "p"; name = codes "n"; version = codes "v" };
  user = record {
    subject = codes "s";
    authkey = codes "k";
    namespace = record { name = codes "ns"; uuid = codes "u" };
  };
  blocking = false;
}

-- One activation waits.
abbrev start : FrontEnd
start = record {
  controller = record {
    nids = 9 ∷ [];
    front_end_cpus_map = (9 ∷ [], 3) ∷ [];
    record_map = (4, entry_of 5000000 1 message) ∷ [];
  };
  db = record {
    host = codes "h";
    password = codes "w";
    port = codes "1";
    protocol = codes "http";
    username = codes "u";
    address = codes "a";
    db_entity = codes "e";
    db_cache = [];
  };
}

abbrev result : InvocationStats
result = record {
  transaction_id = 4;
  function_id = 3;
  args_size = 2;
  activation_id = [];
  exec = record { run_time = 2; init_time = 1; status = false };
}

-- A test of the health comes in, then the reply for the activation that waits, then a second one.
abbrev turns : List Turn
turns =
    polls 6000000 2 (payload (codes "{}"))
    ∷ polls 7000000 3 nothing
    ∷ replies 9000000 result (codes "done")
    ∷ replies 9500000 result (codes "again")
    ∷ []

abbrev finish : FrontEnd
finish = record start { controller = record start.controller { record_map = [] } }

abbrev test_name : Bytes
test_name = codes "invokerHealthTestAction0"

abbrev health : ActivationMessage
health = record {
  transid = record { name = []; id = 0 };
  root_controller_index = record { instance_id = pos 1; name = test_name };
  activation_id = test_name;
  revision = test_name;
  content = codes "{}";
  action = record { path = test_name; name = test_name; version = test_name };
  user = record {
    subject = test_name;
    authkey = test_name;
    namespace = record { name = test_name; uuid = test_name };
  };
  blocking = false;
}

abbrev outputs : List Output
outputs =
    commit
    ∷ answer_at_once env client health
    ∷ completed client
        (complete (pos 0) (pos 0) 9000000 (entry_of 5000000 1 message) result (codes "done"))
    ∷ []

ran : run env client turns start ≡ ok (finish, outputs)
unfolding run find erase resolve_activation resolve_record read_activation
ran = refl

run-answers_example :
    ◌≡◌ {A = ℕ} (answers outputs + waiting finish) (waiting start + payloads turns)
unfolding find
run-answers_example = run-answers env client turns start finish outputs (refl, tt) ran

-- The same, with a result that is a text of JSON: it has a blank, a fraction, an escape and a null.
abbrev json_result : Bytes
json_result = codes "{ \"n\":-1.5e3,\"s\":\"a\\n\",\"z\":null}"

abbrev json_value : Value
json_value = object (
    member (codes " ") (codes "n") [] (number (codes "-1.5e3")) (
      member [] (codes "s") [] (string (codes "a\\n"))
        (member [] (codes "z") [] null (no_member []))))

abbrev json_turns : List Turn
json_turns =
    polls 6000000 2 (payload (codes "{}"))
    ∷ polls 7000000 3 nothing
    ∷ replies 9000000 result json_result
    ∷ []

abbrev json_outputs : List Output
json_outputs =
    commit
    ∷ answer_at_once env client health
    ∷ completed client
        (complete (pos 0) (pos 0) 9000000 (entry_of 5000000 1 message) result json_result)
    ∷ []

json_ran :
    connect env client 2 json_turns start
    ≡ ok (beats 2 client, some (codes "invoker3"), finish, json_outputs)
unfolding connect ping_producer_loop activation_consumer_loop run find erase resolve_activation
    resolve_record read_activation to_string
json_ran = refl

connect-AreTexts_example : AreTexts (beats 2 client) × AreTexts json_outputs
unfolding text_of is_proper is_string is_number is_blank is_plain_message read_activation
connect-AreTexts_example =
    connect-AreTexts env client 2 json_turns start finish (some (codes "invoker3")) (beats 2 client)
      json_outputs refl (refl, ((json_value, refl, refl), tt)) json_ran
