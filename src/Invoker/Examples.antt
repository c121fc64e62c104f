-- ===== src/Invoker/Examples.antt =====
-- Runs of the parts of `Invoker` on small inputs.
use seuss.Prelude.{
  ℕ, ◌≤◌, ◌≡◌, ◌≢◌, refl, Bool, true, false, [], ◌∷◌, Bytes, codes, drop, ok, arith,
}
use seuss.Hot.Defs.{HotCache}
use seuss.Session.Defs.{
  InvocationSession, set_value, disconnect, aborted, executed, status_line, receive,
}
use seuss.Invoker.Defs.{Counters, has_capacity, Attempt}
use seuss.Invoker.Concurrency.{
  Core, start, idle, started, Reach, here, next, in_flight-le-limit, in_flight_unbounded,
}
use seuss.Invoker.Callbacks.{failed_reply, with_reply, both, failed_after}

abbrev counters : Counters
counters = record {
  request_concurrency = 0;
  request_concurrency_limit = 1;
  invctr = 0;
  port = 16370;
}

in_flight-le-limit_example : (started (idle 1)).in_flight ≤ 1
unfolding has_capacity
in_flight-le-limit_example =
    in_flight-le-limit {limit = 1} {k = started (idle 1)} (omega arith) (next here (start refl))

in_flight_unbounded_example : (k : Core) × Reach 256 k × (k.in_flight ≡ 300)
in_flight_unbounded_example = in_flight_unbounded 256 300 (omega arith)

abbrev session : InvocationSession
session = record {
  is_connected = true;
  is_initialized = true;
  src_port = 49160;
  timer_set = false;
  timeout = 0;
  init_start_time = 0;
  run_start_time = 1000000;
  previous_request = [];
  reply = [];
}

abbrev attempt : Attempt
attempt = record {
  session = session;
  istats = record {
    transaction_id = 7;
    function_id = 5;
    args_size = 2;
    activation_id = [];
    exec = record { run_time = 0; init_time = 0; status = false };
  };
  fid = 5;
  umi_id = 70;
  args = codes "{}";
  code = [];
}

abbrev no_room : HotCache
no_room = record {
  hot_instance_limit = 0;
  hot_instance_reuse_limit = 300;
  stalled_instance_map = [];
  stalled_instance_fifo = [];
  stalled_instance_usage_count = [];
}

abbrev everything : ℕ → Bool
everything id = true

abbrev failure : Bytes
failure = codes "HTTP/1.1 502 Bad Gateway\r\n\r\n{\"error\":\"x\"}"

failure_status : status_line failure ≢ codes "HTTP/1.1 200 OK"
failure_status e = ground arith

failure_text : drop 28 failure ≢ codes "{\"OK\":true}"
failure_text e = ground arith

abbrev error_text : Bytes
error_text = codes "{\"error\":\"x\"}"

failed_reply_example :
    (receive false failure session
      ≡ ok
          (with_reply error_text session, set_value aborted ∷ disconnect ∷ set_value executed ∷ []))
    × (both everything 9000000 aborted executed
          (record attempt { session = with_reply error_text session })
          no_room
        ≡ ok (failed_after 9000000 error_text attempt no_room))
failed_reply_example =
    failed_reply everything 9000000 28 failure attempt no_room refl failure_status failure_text
