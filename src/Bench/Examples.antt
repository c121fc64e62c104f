-- ===== src/Bench/Examples.antt =====
-- Tests of the benchmark, and the witnesses.
use seuss.Prelude.{
  ◌++◌, ◌≤◌, map, length, replicate, false, arith, ℕ, ◌+◌, ◌*◌, ◌/◌, ◌≡◌, refl, List, [], ◌∷◌,
  Bytes, codes, ok, some,
}
use seuss.Prelude.Int.{pos, negsuc}
use seuss.Prelude.Decimal.{to_string}
use seuss.Text.Numbers.{skip_spaces, is_int, signed}
use seuss.Table.{find, emplace, erase}
use seuss.Channel.Defs.{read_at}
use seuss.Openwhisk.Msg.{ActivationMessage}
use seuss.Controller.Defs.{
  Controller, Outgoing, copy_activation_id, new_stats, cpu_of, front, schedule_with_code, ready,
  resolve_record, resolve_activation,
}
use seuss.Controller.Records.{entry_of}
use seuss.Bench.Rounds.{Rounds, RoundEvent, goes_on, replies, rounds}
use seuss.Bench.Pool.{under_way, functions, rounds-bounds}
use seuss.Bench.Defs.{stoi, bench, str_to_int_vec, gen_revision_vec}
use seuss.Bench.Revisions.{count, drawn}
use seuss.Bench.Reading.{typed}
use seuss.Bench.Prompt.{begins, asks_again, prompt}
use seuss.Bench.Started.{prompt-typed}

abbrev rand_by_round : ℕ → ℕ
rand_by_round i = 41 + i

two_names :
    gen_revision_vec rand_by_round (λ l. l) (pos 4) (pos 2)
    ≡ ok (codes "41" ∷ codes "41" ∷ codes "42" ∷ codes "42" ∷ [])
unfolding gen_revision_vec to_string
two_names = refl

numbers : str_to_int_vec (codes "10 2 -1") 32 ≡ some (pos 10 ∷ pos 2 ∷ negsuc 0 ∷ [])
unfolding str_to_int_vec stoi skip_spaces is_int signed
numbers = refl

-- Two blanks in a row stop the reader, which leaves no runs.
two_blanks : (bench (codes "10  2")).runs ≡ pos 0
unfolding bench stoi skip_spaces is_int signed
two_blanks = refl

abbrev activation : (name revision : Bytes) → ActivationMessage
activation name revision = record {
  transid = record { name = name; id = 1 };
  root_controller_index = record { instance_id = pos 0; name = [] };
  activation_id = replicate 32 b'a';
  revision = revision;
  content = codes "{}";
  action = record { path = codes "p"; name = codes "n"; version = codes "v" };
  user = record {
    subject = codes "s";
    authkey = codes "k";
    namespace = record { name = codes "ns"; uuid = codes "u" };
  };
  blocking = false;
}

abbrev nid_text : ℕ → Bytes
nid_text nid = nid ∷ []

abbrev idle : Controller
idle = record { nids = 9 ∷ []; front_end_cpus_map = (9 ∷ [], 3) ∷ []; record_map = [] }

abbrev sent_out : ℕ → Outgoing
sent_out tid = record {
  nid = 9;
  cpu = 3;
  stats = record {
    transaction_id = tid;
    function_id = 2;
    args_size = 2;
    activation_id = replicate 32 b'a' ++ 0 ∷ 0 ∷ [];
    exec = record { run_time = 0; init_time = 0; status = false };
  };
  args = codes "{}";
  code = codes "x";
}

-- One worker: the second run waits for the reply of the first.
abbrev turns : List RoundEvent
turns =
    goes_on 5000000 1 4
    ∷ goes_on 5500000 2 17
    ∷ replies 9000000 (sent_out 1).stats (codes "done")
    ∷ goes_on 9500000 2 17
    ∷ []

abbrev last : Rounds
last = record {
  revisions = [];
  pool = pos 0;
  controller = record idle {
    record_map = (2, entry_of 9500000 2 (activation (codes "17") (codes "42"))) ∷ [];
  };
}

ran :
    rounds length nid_text
      (pos 0)
      (pos 0)
      (activation [] [])
      (codes "x")
      turns
      (record { revisions = codes "41" ∷ codes "42" ∷ []; pool = pos 1; controller = idle })
    ≡ ok (last, sent_out 1 ∷ sent_out 2 ∷ [])
unfolding rounds to_string schedule_with_code copy_activation_id read_at new_stats cpu_of front find
    emplace erase resolve_activation resolve_record
ran = refl

rounds-bounds_example :
    (under_way last ≤ 1)
    × (functions (sent_out 1 ∷ sent_out 2 ∷ []) ++ [] ≡ map length (codes "41" ∷ codes "42" ∷ []))
rounds-bounds_example =
    rounds-bounds length nid_text (pos 0) (pos 0) (activation [] []) (codes "x") 1 turns
      (codes "41" ∷ codes "42" ∷ []) idle last (sent_out 1 ∷ sent_out 2 ∷ []) refl ran

prompt-typed_example :
    (l : List Bytes) × (prompt rand_by_round (λ l. l) (typed 4 2 3 0) idle
      ≡ ok (begins (record { revisions = l; pool = pos 3; controller = idle })))
    × (length l ≡ 4)
    × ((x : Bytes) → count x l ≡ 4 / 2 * count x (drawn 2 0 rand_by_round))
unfolding ready
prompt-typed_example =
    prompt-typed rand_by_round (λ l. l) (λ x l. refl) (λ l. refl) idle 4 2 3 0 refl (omega arith)
      (omega arith) (omega arith) (omega arith) (omega arith) (omega arith) refl

typed_by_hand : typed 4 2 3 0 ≡ codes "4 2 3 0"
unfolding to_string
typed_by_hand = refl

-- At the end of the input every line is empty, and the loop asks on and on.
no_line : prompt rand_by_round (λ l. l) [] idle ≡ ok asks_again
unfolding prompt
no_line = refl
