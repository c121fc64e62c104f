-- ===== src/Invoker/BootRuns.antt =====
-- Runs of `Bootstrap` and of `Poke` on small inputs.
use seuss.Prelude.{◌≡◌, refl, true, false, some, List, [], ◌∷◌, Bytes, codes, ok}
use seuss.Table.{find, erase}
use seuss.Invocation.{Invocation}
use seuss.Root.Defs.{InvokerRoot}
use seuss.Root.Queue.{IsQueued, view}
use seuss.Session.Http.{http_post_request}
use seuss.Session.Defs.{Action}
use seuss.Invoker.Defs.{has_capacity}
use seuss.Invoker.Starts.{Node}
use seuss.Invoker.Poke.{poke, run_oldest, poke-view}
use seuss.Invoker.Bootstrap.{booted, bootstrap, warmup_code, warmup_args}
use seuss.Invoker.Booted.{after_boot}
use seuss.Invoker.WarmedUp.{warmed_up, requests, bootstrap-warmed_up}

abbrev new_root : InvokerRoot
new_root = record {
  is_bootstrapped = false;
  base_um_env = 0;
  preinit_env = 0;
  snapmap = [];
  request_map = [];
  request_queue = [];
}

abbrev ready : Bytes
ready = codes "HTTP/1.1 200 OK\r\n\r\n{\"OK\":true}"

abbrev reply : Bytes
reply = codes "HTTP/1.1 200 OK\r\n\r\n{\"done\":true}"

bootstrap-warmed_up_example :
    (acts : List Action) × (bootstrap
        (some 51)
        (warmed_up 1000 2000 3000 4000 52 ready reply)
        new_root
      ≡ ok (booted (after_boot 51 52 new_root) acts))
    × (requests acts
        ≡ http_post_request (codes "/preInit") warmup_code true
          ∷ http_post_request (codes "/preRun") warmup_args false
          ∷ [])
bootstrap-warmed_up_example =
    bootstrap-warmed_up 51 52 1000 2000 3000 4000 19 19 ready reply new_root refl refl refl refl
      refl refl

-- A core with capacity, on a node where one invocation waits.
abbrev invocation : Invocation
invocation = record {
  info = record {
    transaction_id = 7;
    function_id = 5;
    args_size = 2;
    activation_id = [];
    exec = record { run_time = 0; init_time = 0; status = true };
  };
  args = codes "{}";
  code = codes "function main(args) { return {}; }";
}

abbrev node : Node
node = record {
  root = record new_root {
    is_bootstrapped = true;
    request_map = (7, invocation) ∷ [];
    request_queue = 7 ∷ [];
  };
  hot = record {
    hot_instance_limit = 4;
    hot_instance_reuse_limit = 300;
    stalled_instance_map = [];
    stalled_instance_fifo = [];
    stalled_instance_usage_count = [];
  };
  counters = record {
    request_concurrency = 2;
    request_concurrency_limit = 12;
    invctr = 9;
    port = 8;
  };
}

node-IsQueued : IsQueued node.root
unfolding find erase
node-IsQueued = record { holds = ((invocation, refl, refl), λ tid. refl) }

poke-view_example :
    (root : InvokerRoot) × IsQueued root
    × (view root ≡ [])
    × (poke (λ id. true) 4 1 70 71 [] [] [] node
        ≡ run_oldest (λ id. true) 4 1 70 71 [] [] [] (invocation ∷ []) node root)
unfolding find erase has_capacity
poke-view_example = poke-view (λ id. true) 4 1 70 71 [] [] [] node node-IsQueued
