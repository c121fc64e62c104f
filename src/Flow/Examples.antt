-- ===== src/Flow/Examples.antt =====
-- An activation on its way to a node under load.
use seuss.Prelude.{
  ℕ, ◌≡◌, refl, List, nat_eq, arith, false, true, [], ◌∷◌, ◌++◌, Bytes, codes, length, take, leb,
  if◌then◌else◌, replicate, length-replicate, Result, ok, panic,
}
use seuss.Prelude.Int.{pos}
use seuss.Table.{find, emplace}
use seuss.Root.Defs.{InvokerRoot, add_work, poke_cores}
use seuss.Root.Queue.{IsQueued}
use seuss.Channel.Defs.{SeussChannel, read_at}
use seuss.Openwhisk.Msg.{ActivationMessage}
use seuss.Controller.Defs.{
  Controller, Outgoing, copy_activation_id, new_stats, cpu_of, front, schedule_with_code,
}
use seuss.Controller.Records.{entry_of}
use seuss.Flow.Load.{requested, scheduled_starts}
use seuss.Cores.Defs.{Machine, arrive, Works, quiet, Reach, start, arrives}
use seuss.Invocation.{Invocation}

abbrev hash : Bytes → ℕ
hash = length

abbrev nid_text : ℕ → Bytes
nid_text nid = nid ∷ []

abbrev message : ActivationMessage
message = record {
  transid = record { name = codes "tid"; id = 1 };
  root_controller_index = record { instance_id = pos 0; name = [] };
  activation_id = replicate 32 b'a';
  revision = codes "rev-1";
  content = codes "{}";
  action = record { path = codes "p"; name = codes "n"; version = codes "v" };
  user = record {
    subject = codes "s";
    authkey = codes "k";
    namespace = record { name = codes "ns"; uuid = codes "u" };
  };
  blocking = false;
}

abbrev before : Controller
before = record { nids = 9 ∷ []; front_end_cpus_map = (9 ∷ [], 3) ∷ []; record_map = [] }

abbrev after : Controller
after = record before { record_map = (3, entry_of 50 1 message) ∷ [] }

abbrev out : Outgoing
out = record {
  nid = 9;
  cpu = 3;
  stats = record {
    transaction_id = 3;
    function_id = 5;
    args_size = 2;
    activation_id = replicate 32 b'a' ++ 0 ∷ 0 ∷ [];
    exec = record { run_time = 0; init_time = 0; status = false };
  };
  args = codes "{}";
  code = codes "x";
}

scheduled : schedule_with_code hash nid_text 50 1 before message (codes "x") ≡ ok (after, out)
unfolding schedule_with_code copy_activation_id read_at new_stats cpu_of front find emplace
scheduled = refl

abbrev node : InvokerRoot
node = record {
  base_um_env = 90;
  preinit_env = 1;
  is_bootstrapped = true;
  request_map = [];
  request_queue = [];
  snapmap = [];
}

node-IsQueued : IsQueued node
unfolding find
node-IsQueued = record { holds = λ tid. refl }

abbrev dirty : ℕ → Bytes
dirty n = replicate n 255

dirty_length : (n : ℕ) → length (dirty n) ≡ n
dirty_length n = length-replicate n 255

abbrev gather : ℕ → Bytes → Result Bytes
gather n bytes = if leb n (length bytes) then ok (take n bytes) else panic

abbrev io : SeussChannel
io = record { io_core = 0 }

-- Another invocation is queued on the node, and a poke waits for it.
abbrev other : Invocation
other = record {
  info = record out.stats { transaction_id = 7 };
  args = codes "{}";
  code = codes "y";
}

abbrev loaded : Machine
loaded = record (quiet 12 node) {
  root = record node { request_map = (7, other) ∷ []; request_queue = 7 ∷ [] };
  pokes = 1 ∷ [];
}

other_comes : arrive 2 0 other (quiet 12 node) ≡ ok loaded
unfolding arrive add_work poke_cores emplace find
other_comes = refl

loaded_reached : Reach 2 12 node loaded
loaded_reached = arrives 0 other loaded start (omega arith) other_comes

scheduled_starts_example :
    (m₁ : Machine) × (n : ℕ) × (is : List Invocation) × (m' : Machine) × (requested hash nid_text 50
        1 before after message
        (codes "x")
        out
        dirty
        dirty_length
        80
        gather
        2
        12
        0
        io
        node
        loaded
      ≡ ok m₁)
    × Works m₁ n is m'
    × (m'.pokes ≡ [])
    × (m'.running ≡ [])
    × (is ≡ other ∷ record { info = out.stats; code = codes "x"; args = codes "{}" } ∷ [])
unfolding find
scheduled_starts_example =
    scheduled_starts hash nid_text 50 1 before after message (codes "x") out dirty dirty_length 80
      gather 2 12 0 io node scheduled (omega arith) (omega arith) (omega arith) node-IsQueued refl
      loaded_reached refl
