-- ===== src/Invoker/ReuseRuns.antt =====
-- Runs of `Invoke` where an instance or a snapshot is reused.
use seuss.Prelude.{
  ℕ, ◌≡◌, ◌≢◌, refl, Bool, true, false, some, List, [], ◌∷◌, Bytes, codes, ok, arith, nat_eq,
  bytes_eq,
}
use seuss.Table.{find}
use seuss.Invocation.{Invocation}
use seuss.Root.Defs.{InvokerRoot, cache_is_full}
use seuss.Hot.Defs.{
  HotCache, hot_instances_are_enabled, hot_instance_can_be_reused, within_reuse_limit,
}
use seuss.Hot.Invariant.{taken}
use seuss.Session.Defs.{new_session}
use seuss.Session.Http.{http_post_request}
use seuss.Invoker.Defs.{
  Output, create_from, register_port, load_and_start, set_active, signal_resume, get_internal_port,
}
use seuss.Invoker.Starts.{Node, Job, finished, invoke, events}
use seuss.Invoker.Served.{served, replies, made}
use seuss.Invoker.Answered.{answered, answered_stats}
use seuss.Invoker.Attempts.{after_attempt, after_invoke, begun}
use seuss.Invoker.Reused.{warm_stats, warm_start_replies, hot_start_replies}
use seuss.Invoker.Again.{cold_then_hot, cold_then_warm}
use seuss.Invoker.Repeated.{ok_result, sent_to_instance, ok_result_runs_again}

abbrev root : InvokerRoot
root = record {
  is_bootstrapped = true;
  base_um_env = 900;
  preinit_env = 1;
  snapmap = [];
  request_map = [];
  request_queue = [];
}

abbrev up_to : (limit : ℕ) → HotCache
up_to limit = record {
  hot_instance_limit = limit;
  hot_instance_reuse_limit = 300;
  stalled_instance_map = [];
  stalled_instance_fifo = [];
  stalled_instance_usage_count = [];
}

abbrev node : (limit : ℕ) → Node
node limit = record {
  root = root;
  hot = up_to limit;
  counters = record {
    request_concurrency = 2;
    request_concurrency_limit = 12;
    invctr = 9;
    port = 8;
  };
}

abbrev invocation : Invocation
invocation = record {
  info = record {
    transaction_id = 7;
    function_id = 5;
    args_size = 2;
    activation_id = [];
    exec = record { run_time = 0; init_time = 0; status = true };
  };
  args = codes "{}";
  code = codes "function main(args) { return {}; }";
}

abbrev known : ℕ → Bool
known id = true

abbrev ready : Bytes
ready = codes "HTTP/1.1 200 OK\r\n\r\n{\"OK\":true}"

abbrev reply : Bytes
reply = codes "HTTP/1.1 200 OK\r\n\r\n{\"n\":1}"

other : codes "{\"n\":1}" ≢ codes "{\"OK\":true}"
other e = cc e

abbrev with_snapshot : Node
with_snapshot = record (node 4) { root = record root { snapmap = (5, 88) ∷ [] } }

warm_start_replies_example :
    (outs : List Output) × (invoke known 4 1 72 73 []
        (answered 1000 3000000 9000000 reply)
        []
        invocation
        with_snapshot
      ≡ ok (
        finished true,
        after_invoke (after_attempt 4 1 5 72 with_snapshot.root (begun with_snapshot)),
        create_from 88 72
            ∷ register_port 72 (get_internal_port 4 1 with_snapshot.counters).0
            ∷ load_and_start 72
            ∷ outs,
      ))
    × (replies outs
        ≡ (answered_stats 3000000 9000000 (warm_stats invocation.info), codes "{\"n\":1}") ∷ [])
    × (made outs ≡ [])
unfolding find
warm_start_replies_example =
    warm_start_replies known 4 1 72 73 1000 3000000 9000000 19 reply invocation with_snapshot refl
      refl other refl (omega arith) [] [] 88 refl refl refl (omega arith) refl

abbrev with_instance : Node
with_instance = record (node 4) {
  hot = record (up_to 4) {
    stalled_instance_map = (5, 60) ∷ [];
    stalled_instance_fifo = 5 ∷ [];
    stalled_instance_usage_count = (5, 1) ∷ [];
  };
}

hot_start_replies_example :
    (outs : List Output) × (invoke known 4 1 72 73
        (answered 1000 3000000 9000000 reply)
        []
        []
        invocation
        with_instance
      ≡ ok (
        finished true,
        after_invoke (
            after_attempt 4 1 5 60 with_instance.root
              (begun (record with_instance { hot = taken with_instance.hot 5 }))),
        register_port 60 (get_internal_port 4 1 with_instance.counters).0
            ∷ set_active 60
            ∷ signal_resume 60
            ∷ outs,
      ))
    × (replies outs ≡ (answered_stats 3000000 9000000 invocation.info, codes "{\"n\":1}") ∷ [])
    × (made outs ≡ [])
unfolding find
hot_start_replies_example =
    hot_start_replies known 4 1 72 73 1000 3000000 9000000 19 reply invocation with_instance refl
      refl other refl (omega arith) [] [] 60 (omega arith) refl (omega arith) refl

cold_then_hot_example :
    (n' : Node) × (outs : List Output) × (m : Node) × (outs' : List Output) × (invoke known 4 1 70
        71 [] []
        (served 1000 2000 3000000 9000000 (some 88) ready reply)
        invocation
        (node 4)
      ≡ ok (finished true, n', outs))
    × (made outs ≡ 71 ∷ [])
    × (invoke known 4 1 72 73 (answered 10000000 11000000 12000000 reply) [] [] invocation n'
        ≡ ok (finished true, m, outs'))
    × (replies outs' ≡ (answered_stats 11000000 12000000 invocation.info, codes "{\"n\":1}") ∷ [])
    × (made outs' ≡ [])
unfolding find hot_instances_are_enabled hot_instance_can_be_reused within_reuse_limit
cold_then_hot_example =
    cold_then_hot known 4 1 70 71 1000 2000 3000000 9000000 19 19 (some 88) ready reply invocation
      (node 4) refl refl refl refl refl refl refl (omega arith) (omega arith) refl refl refl refl 72
      73 10000000 11000000 12000000 19 reply invocation refl refl other refl refl [] [] [] [] refl

cold_then_warm_example :
    (n' : Node) × (outs : List Output) × (m : Node) × (outs' : List Output) × (invoke known 4 1 70
        71 [] []
        (served 1000 2000 3000000 9000000 (some 88) ready reply)
        invocation
        (node 0)
      ≡ ok (finished true, n', outs))
    × (made outs ≡ 71 ∷ [])
    × (invoke known 4 1 72 73 [] (answered 10000000 11000000 12000000 reply) [] invocation n'
        ≡ ok (finished true, m, outs'))
    × (replies outs'
        ≡ (answered_stats 11000000 12000000 (warm_stats invocation.info), codes "{\"n\":1}") ∷ [])
    × (made outs' ≡ 72 ∷ [])
unfolding find hot_instances_are_enabled hot_instance_can_be_reused within_reuse_limit cache_is_full
cold_then_warm_example =
    cold_then_warm known 4 1 70 71 1000 2000 3000000 9000000 19 19 (some 88) ready reply invocation
      (node 0) refl refl refl refl refl refl refl (omega arith) (omega arith) refl refl refl refl 72
      73 10000000 11000000 12000000 19 reply invocation refl refl other refl refl [] [] [] [] 88
      refl refl refl (omega arith) refl

abbrev said_ok : Job
said_ok = record {
  node = with_snapshot;
  attempt = record {
    session = new_session 49160;
    istats = invocation.info;
    fid = 5;
    umi_id = 72;
    args = invocation.args;
    code = [];
  };
}

abbrev ok_reply : Bytes
ok_reply = codes "HTTP/1.1 200 OK\r\n\r\n{\"OK\":true}"

ok_result_runs_again_example :
    (j' : Job) × (outs : List Output) × (events known false
        (ok_result 1000 2000 3000000 ok_reply)
        said_ok
      ≡ ok (j', outs))
    × (sent_to_instance outs
        ≡ http_post_request (codes "/run") (codes "{}") false
          ∷ http_post_request (codes "/run") (codes "{}") false
          ∷ [])
    × (replies outs ≡ [])
ok_result_runs_again_example =
    ok_result_runs_again known false 1000 2000 3000000 19 49160 ok_reply said_ok refl refl refl
      (omega arith) refl refl refl
