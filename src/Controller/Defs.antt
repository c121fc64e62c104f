-- ===== src/Controller/Defs.antt =====
-- The state of `Controller` and its operations.
use seuss.Prelude.{
  ℕ, ◌+◌, ◌-◌, ◌%◌, ◌^◌, Bool, false, not, Option, none, some, List, [], ◌∷◌, ◌++◌, nat_eq,
  bytes_eq, leb, is_empty, if◌then◌else◌, Bytes, codes, length, Result, ok, panic, ◌>>=◌, ◌>>◌,
  kassert,
}
use seuss.Prelude.Decimal.{to_string}
use seuss.Prelude.Clock.{elapsed}
use seuss.Prelude.Int.{ℤ, pos, of_word}
use seuss.Table.{Table, find, erase, emplace}
use seuss.Invocation.{ExecStats, InvocationStats}
use seuss.Channel.Defs.{read_at}
use seuss.Openwhisk.Msg.{ActivationMessage, CompletionMessage, new_completion}
use seuss.Openwhisk.Couchdb.{Couchdb, get_action}

pub record ActivationRecord : Type 0 where
  pub promise : ℕ
  pub message : ActivationMessage
  pub start : ℕ

pub record Controller : Type 0 where
  pub nids : List ℕ
  pub front_end_cpus_map : Table Bytes ℕ
  pub record_map : Table ℕ ActivationRecord

unfoldable pub ready : Controller → Bool
ready c = not (is_empty c.nids)

-- `(cpu_num - size) % cpu_num` on `int`, stored as a `size_t`.
unfoldable pub cpu_index : (cpu_num size : ℕ) → ℕ
cpu_index cpu_num size =
    if leb size cpu_num
    then (cpu_num - size) % cpu_num
    else (2 ^ 64 - (size - cpu_num) % cpu_num) % 2 ^ 64

-- The message that the front end sends on the core of a node.
pub record Outgoing : Type 0 where
  pub nid : ℕ
  pub cpu : ℕ
  pub stats : InvocationStats
  pub args : Bytes
  pub code : Bytes

-- The 34 bytes for an activation id: 33 are copied from the text, whose storage ends in a zero byte,
-- and the last one stays zero. A text of less than 32 bytes is read past its end, without a check, which
-- the language leaves undefined: no result, as for a stop.
unfoldable pub copy_activation_id : Bytes → Result Bytes
copy_activation_id text = do copied ← read_at 0 33 (text ++ 0 ∷ []); ok (copied ++ 0 ∷ [])

unfoldable pub new_stats : (tid fid args_size : ℕ) → (activation_id : Bytes) → InvocationStats
new_stats tid fid args_size activation_id = record {
  transaction_id = tid;
  function_id = fid;
  args_size = args_size;
  activation_id = activation_id;
  exec = record { run_time = 0; init_time = 0; status = false };
}

-- `_frontEnd_cpus_map[key]`, where a missing key gets 0.
unfoldable pub cpu_of : Bytes → Table Bytes ℕ → ℕ × Table Bytes ℕ
cpu_of key m = elim (find key m) [ none ↦ (0, (key, 0) ∷ m) | some cpu ↦ (cpu, m) ]

-- `hash` is `std::hash<std::string>`, `nid_text` is `NetworkId::ToString`.
module _ (hash : Bytes → ℕ) (nid_text : ℕ → Bytes) where
  -- `RegisterNode`: the new node gets a core of the front end, unless its text is known.
  unfoldable pub register_node : (cpu_num : ℕ) → Controller → ℕ → Controller
  register_node cpu_num c nid =
      let nids = c.nids ++ nid ∷ [] in
      record c {
        nids = nids;
        front_end_cpus_map =
            (emplace (nid_text nid) (cpu_index cpu_num (length nids)) c.front_end_cpus_map).0;
      }

  unfoldable pub front : List ℕ → Result ℕ
  front [] = panic
  front (nid ∷ nids) = ok nid

  -- `ScheduleActivation` past the choice of the code.
  unfoldable pub schedule_with_code :
      (now promise : ℕ)
      → Controller
      → ActivationMessage
      → (code : Bytes) → Result (Controller × Outgoing)
  unfolding front
  schedule_with_code now promise c am code = do
    let tid = hash am.transid.name
    let args = am.content
    activation_id ← copy_activation_id am.activation_id
    let stats = new_stats tid (hash am.revision) (length args) activation_id
    let entry : ActivationRecord = record { promise = promise; message = am; start = now }
    let (record_map, inserted) = emplace tid entry c.record_map
    kassert inserted
    nid ← front c.nids
    let (cpu, cpus) = cpu_of (nid_text nid) c.front_end_cpus_map
    ok (
      record c { record_map = record_map; front_end_cpus_map = cpus },
      record { nid = nid; cpu = cpu; stats = stats; args = args; code = code },
    )

  module _ (http_get : Bytes → Bytes) (code_in : Bytes → Option (Option Bytes)) where
    -- `ScheduleActivation`, with the state of the code cache.
    unfoldable pub schedule_activation :
        (now promise : ℕ)
        → Controller
        → Couchdb
        → ActivationMessage
        → (code : Bytes) → Result (Controller × Couchdb × Outgoing)
    schedule_activation now promise c db am code = do
      let found =
          (if is_empty code then get_action http_get code_in db am.action else (code, db, []))
      (c', out) ← schedule_with_code now promise c am found.0
      ok (c', found.1, out)

-- `total_time - run_time - init_time` on `size_t`.
unfoldable pub wait_time : (total : ℕ) → ExecStats → ℕ
wait_time total exec =
    (total + (2 ^ 64 - exec.run_time % 2 ^ 64) + (2 ^ 64 - exec.init_time % 2 ^ 64)) % 2 ^ 64

unfoldable pub annotations : (wait : ℕ) → ExecStats → Bytes
annotations wait exec =
    codes "{\"key\":\"waitTime\",\"value\":"
    ++ to_string wait
    ++ codes "},{\"key\":\"initTime\",\"value\":"
    ++ to_string exec.init_time
    ++ codes "}"

unfoldable pub complete :
    (instance₀ status₀ : ℤ) (now : ℕ)
    → ActivationRecord
    → InvocationStats
    → Bytes
    → CompletionMessage
complete instance₀ status₀ now entry istats res =
    let cm = new_completion instance₀ status₀ entry.message in
    let wait = wait_time (elapsed now entry.start) istats.exec in
    record cm {
      response = record cm.response {
        annotations = annotations wait istats.exec;
        duration = of_word istats.exec.run_time;
        start = pos 0;
        end = pos 0;
        status_code = (if istats.exec.status then pos 1 else pos 0);
        result = res;
      };
    }

-- `ResolveActivation` past the lookup: the new state, and the promise with its value.
unfoldable pub resolve_record :
    (instance₀ status₀ : ℤ) (now : ℕ)
    → Option ActivationRecord
    → Controller
    → InvocationStats
    → Bytes
    → Controller × Option (ℕ × CompletionMessage)
resolve_record instance₀ status₀ now none c istats res = (c, none)
resolve_record instance₀ status₀ now (some entry) c istats res = (
  record c { record_map = erase istats.transaction_id c.record_map },
  some (entry.promise, complete instance₀ status₀ now entry istats res),
)

-- `ResolveActivation`: the new state, and the promise that is fulfilled with its value, if one is.
unfoldable pub resolve_activation :
    (instance₀ status₀ : ℤ) (now : ℕ)
    → Controller
    → InvocationStats
    → Bytes
    → Controller × Option (ℕ × CompletionMessage)
resolve_activation instance₀ status₀ now c istats res =
    resolve_record instance₀ status₀ now (find istats.transaction_id c.record_map) c istats res
