-- ===== src/Controller/Examples.antt =====
-- Runs of the front end on small inputs.
use seuss.Prelude.{
  ℕ, ◌+◌, ◌≡◌, refl, false, List, [], ◌∷◌, ◌++◌, Bytes, codes, length, replicate, ok, is_ok,
}
use seuss.Prelude.Int.{pos}
use seuss.Table.{find, emplace, erase}
use seuss.Invocation.{InvocationStats}
use seuss.Channel.Defs.{read_at}
use seuss.Openwhisk.Msg.{ActivationMessage}
use seuss.Controller.Defs.{
  Controller, Outgoing, copy_activation_id, new_stats, cpu_of, cpu_index, front, ready,
  register_node, schedule_with_code, complete, resolve_record, resolve_activation,
}
use seuss.Controller.Records.{entry_of}
use seuss.Controller.History.{
  Call, schedule, resolve, Fulfilled, run, waiting, fulfilled, run-promises,
}
use seuss.Controller.Nodes.{registers, schedules, AllTo, all_happen, first_node_only}
use seuss.Controller.Outcome.{schedule_outcome}

-- A hash for the examples: the length.
abbrev pub hash : Bytes → ℕ
hash = length

abbrev pub nid_text : ℕ → Bytes
nid_text nid = nid ∷ []

abbrev pub activation : Bytes → ActivationMessage
activation name = record {
  transid = record { name = name; id = 1 };
  root_controller_index = record { instance_id = pos 0; name = [] };
  activation_id = replicate 32 b'a';
  revision = codes "rev";
  content = codes "{}";
  action = record { path = codes "p"; name = codes "n"; version = codes "v" };
  user = record {
    subject = codes "s";
    authkey = codes "k";
    namespace = record { name = codes "ns"; uuid = codes "u" };
  };
  blocking = false;
}

-- A front end of four cores with one node.
abbrev pub one_node : Controller
one_node = record { nids = 9 ∷ []; front_end_cpus_map = (9 ∷ [], 3) ∷ []; record_map = [] }

registered :
    register_node hash nid_text 4 (record { nids = []; front_end_cpus_map = []; record_map = [] }) 9
    ≡ one_node
unfolding register_node cpu_index emplace find
registered = refl

abbrev pub outgoing : Outgoing
outgoing = record {
  nid = 9;
  cpu = 3;
  stats = record {
    transaction_id = 4;
    function_id = 3;
    args_size = 2;
    activation_id = replicate 32 b'a' ++ 0 ∷ 0 ∷ [];
    exec = record { run_time = 0; init_time = 0; status = false };
  };
  args = codes "{}";
  code = codes "x";
}

abbrev pub one_record : Controller
one_record = record one_node {
  record_map = (4, entry_of 5000000 1 (activation (codes "tidA"))) ∷ [];
}

pub scheduled_one :
    schedule_with_code hash nid_text 5000000 1 one_node (activation (codes "tidA")) (codes "x")
    ≡ ok (one_record, outgoing)
unfolding schedule_with_code copy_activation_id read_at new_stats cpu_of front find emplace
scheduled_one = refl

abbrev result : InvocationStats
result = record outgoing.stats { exec = record { run_time = 2; init_time = 1; status = false } }

abbrev calls : List Call
calls =
    schedule 5000000 1 (activation (codes "tidA")) (codes "x")
    ∷ schedule 5000000 2 (activation (codes "tidAB")) (codes "x")
    ∷ resolve 9000000 result (codes "done")
    ∷ resolve 9500000 result (codes "again")
    ∷ []

abbrev answered : Fulfilled
answered =
    (
      1,
      complete (pos 0) (pos 0) 9000000 (entry_of 5000000 1 (activation (codes "tidA"))) result
          (codes "done"),
    )
    ∷ []

abbrev one_left : Controller
one_left = record one_node {
  record_map = (5, entry_of 5000000 2 (activation (codes "tidAB"))) ∷ [];
}

ran : run hash nid_text (pos 0) (pos 0) one_node calls ≡ ok (one_left, answered)
unfolding run schedule_with_code copy_activation_id read_at new_stats cpu_of front find emplace
    erase resolve_activation resolve_record
ran = refl

run-promises_example : ◌≡◌ {A = ℕ} (waiting 2 one_left.record_map + fulfilled 2 answered) 1
run-promises_example =
    run-promises hash nid_text (pos 0) (pos 0) 2 one_node one_left calls answered tt ran

schedule_outcome_example :
    is_ok (
      schedule_with_code hash nid_text 5000000 1 one_record (activation (codes "tidB")) (codes "x"))
    ≡ false
unfolding find ready
schedule_outcome_example =
    schedule_outcome hash nid_text 5000000 1 one_record (activation (codes "tidB")) (codes "x")

abbrev no_node : Controller
no_node = record { nids = []; front_end_cpus_map = []; record_map = [] }

abbrev two_nodes : Controller
two_nodes = record {
  nids = 9 ∷ 8 ∷ [];
  front_end_cpus_map = (8 ∷ [], 2) ∷ (9 ∷ [], 3) ∷ [];
  record_map = (4, entry_of 50 1 (activation (codes "tidA"))) ∷ [];
}

one_goes_out :
    all_happen hash nid_text
      (pos 0)
      (pos 0)
      4
      (registers 9 ∷ registers 8 ∷ schedules 50 1 (activation (codes "tidA")) (codes "x") ∷ [])
      no_node
    ≡ ok (two_nodes, outgoing ∷ [])
unfolding all_happen register_node cpu_index emplace find schedule_with_code copy_activation_id
    read_at new_stats cpu_of front
one_goes_out = refl

first_node_only_example : AllTo 9 (cpu_index 4 1) (outgoing ∷ [])
first_node_only_example =
    first_node_only hash nid_text (pos 0) (pos 0) 4 9
      (registers 8 ∷ schedules 50 1 (activation (codes "tidA")) (codes "x") ∷ []) no_node two_nodes
      (outgoing ∷ []) refl refl one_goes_out
