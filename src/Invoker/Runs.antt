-- ===== src/Invoker/Runs.antt =====
-- Runs of `Invoke` on small inputs.
use seuss.Prelude.{ℕ, ◌≡◌, refl, Bool, true, [], Bytes, codes, panic, arith, nat_eq}
use seuss.Table.{find}
use seuss.Invocation.{Invocation}
use seuss.Root.Defs.{InvokerRoot}
use seuss.Hot.Defs.{HotCache}
use seuss.Invoker.Starts.{Node, invoke}
use seuss.Invoker.Fallback.{no_answer, no_answer_stops}

abbrev booted : InvokerRoot
booted = record {
  is_bootstrapped = true;
  base_um_env = 900;
  preinit_env = 1;
  snapmap = [];
  request_map = [];
  request_queue = [];
}

abbrev empty : HotCache
empty = record {
  hot_instance_limit = 4;
  hot_instance_reuse_limit = 300;
  stalled_instance_map = [];
  stalled_instance_fifo = [];
  stalled_instance_usage_count = [];
}

abbrev node : Node
node = record {
  root = booted;
  hot = empty;
  counters = record {
    request_concurrency = 2;
    request_concurrency_limit = 12;
    invctr = 9;
    port = 8;
  };
}

abbrev invocation : Invocation
invocation = record {
  info = record {
    transaction_id = 7;
    function_id = 5;
    args_size = 2;
    activation_id = [];
    exec = record { run_time = 0; init_time = 0; status = true };
  };
  args = codes "{}";
  code = codes "function main(args) { return {}; }";
}

abbrev known : ℕ → Bool
known id = true

no_answer_stops_example :
    invoke known 4 1 70 71 [] [] (no_answer 1000 5000002000 5000003000) invocation node ≡ panic
unfolding find
no_answer_stops_example =
    no_answer_stops known 4 1 70 71 [] [] invocation node refl refl refl 1000 5000002000 5000003000
      (omega arith)

abbrev ready : Bytes
ready = codes "HTTP/1.1 200 OK\r\n\r\n{\"OK\":true}"

abbrev reply : Bytes
reply = codes "HTTP/1.1 200 OK\r\n\r\n{\"n\":1}"
