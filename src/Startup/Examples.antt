-- ===== src/Startup/Examples.antt =====
-- Runs of `main` on small inputs, and the witness.
use seuss.Prelude.{
  ◌≡◌, refl, true, false, ok, ◌++◌, arith, ◌||◌, Option, none, some, [], ◌∷◌, Bytes, codes,
  bytes_eq, is_empty,
}
use seuss.Openwhisk.Couchdb
use seuss.Kafka
use seuss.Dsys.Settings
use seuss.Startup.Defs.{
  Options, Process, exits, starts, is_mode, natives, controller, connect, main, app_main,
}
use seuss.Startup.Configured.{has_connect, has_natives, app_main-main}
use seuss.Startup.Notify.{Given, main_with}
use seuss.Startup.Limits.{init-main}
use seuss.Hot.Defs.{HotCache}
use seuss.Invoker.Defs.{Counters}
use seuss.Invoker.Init.{init}
use seuss.Dsys.Settings.{Allocation, invoker_args, allocate_native_instances}
use seuss.Dsys.Limits.{command_line}

abbrev in_current_path : Bytes → Bytes
in_current_path file = b'/' ∷ file

abbrev contents : Bytes → Option Bytes
contents path = none

abbrev options : Options
options = record {
  help = false;
  file = some (codes "f.js");
  elf32 = some (codes "seuss.elf32");
  zookeeper = none;
  kafka_brokers = some (codes "broker");
  kafka_topic = none;
  invoker_delay = some 0;
}

abbrev process : (mode : Bytes) → Process
process mode = record {
  db = record {
    host = codes "h";
    password = codes "w";
    port = codes "1";
    protocol = codes "http";
    username = codes "u";
    address = codes "http://u:w@h:1";
    db_entity = codes "e";
    db_cache = [];
  };
  kafka = record { kafka_broker = codes "broker"; invoker_id = 0; invoker_delay = 0; mode = mode };
  function = [];
  settings = record {
    native_binary_path = codes "/seuss.elf32";
    zookeeper_host = [];
    native_instance_count = 1;
    native_core_count = 2;
    native_numa_count = 1;
    native_memory_gb = 8;
    native_invoker_core_concurrency_limit = 12;
    native_invoker_core_spicy_limit = 0;
    native_invoker_core_spicy_reuse = 300;
  };
}

abbrev by_default : Process
by_default = process (codes "default")

launches : main in_current_path contents (some options) by_default ≡ starts by_default
unfolding main Couchdb.init Kafka.Defs.init Settings.process_program_options
launches = refl

-- In the benchmark the file is opened, which fails here.
no_file : main in_current_path contents (some options) (process (codes "benchmark")) ≡ exits 1
unfolding main
no_file = refl

-- A mode that is misspelt starts nothing.
misspelt :
    main in_current_path contents (some options) (process (codes "Default"))
    ≡ starts (process (codes "Default"))
unfolding main
misspelt = refl

app_main-main_example :
    (has_connect (natives ∷ controller ∷ connect ∷ []) ≡ true
      → (is_empty (codes "broker") ≡ false) × (is_empty (codes "h") ≡ false))
    × (has_natives (app_main by_default) ≡ true → is_empty (codes "/seuss.elf32") ≡ false)
    × ((is_mode (codes "default") by_default
            || is_mode (codes "benchmark") by_default
            || is_mode (codes "null") by_default)
          ≡ false
        → app_main by_default ≡ [])
unfolding app_main
app_main-main_example =
    app_main-main in_current_path contents (λ file. refl) options by_default by_default launches

-- The limit of idle instances is given, the other two are not.
abbrev given : Given
given = record {
  help = false;
  mode = none;
  invoker_delay = none;
  file = none;
  dsys = record {
    concurrency_limit = none;
    spicy_limit = some 16;
    reuse_limit = none;
    natives = none;
    cores = none;
    ram = none;
    numa = none;
    elf32 = some (codes "seuss.elf32");
    zookeeper = none;
  };
  couchdb = record {
    couchdb_host = none;
    couchdb_password = none;
    couchdb_port = none;
    couchdb_protocol = none;
    couchdb_username = none;
    couchdb_db_entity = none;
  };
  kafka = record { kafka_brokers = some (codes "broker"); kafka_topic = none };
}

abbrev spicy : Process
spicy = record by_default {
  settings = record by_default.settings { native_invoker_core_spicy_limit = 16 };
}

launches_spicy : main_with in_current_path contents (some given) by_default ≡ starts spicy
unfolding main_with main Couchdb.init Kafka.Defs.init Settings.process_program_options
launches_spicy = refl

abbrev append : Bytes → Bytes → Bytes
append text arg = text ++ (arg ++ codes ";")

abbrev allocation : Allocation
allocation = record {
  binary_path = codes "/seuss.elf32";
  cpus = 2;
  ram = 8;
  numa = 1;
  appended = invoker_args spicy.settings;
}

allocates : allocate_native_instances spicy.settings (codes "/seuss.elf32") ≡ ok allocation
unfolding allocate_native_instances
allocates = refl

abbrev counters : Counters
counters = record { request_concurrency = 0; request_concurrency_limit = 10; invctr = 0; port = 0 }

abbrev hot : HotCache
hot = record {
  hot_instance_limit = 0;
  hot_instance_reuse_limit = 200;
  stalled_instance_map = [];
  stalled_instance_fifo = [];
  stalled_instance_usage_count = [];
}

init-main_example :
    init (command_line append (codes "host=1;") allocation.appended ++ codes "mem=6;") counters hot
    ≡ ok (
      record counters { request_concurrency_limit = 12 },
      record hot { hot_instance_limit = 16; hot_instance_reuse_limit = 300 },
    )
unfolding Kafka.Defs.or_kept
init-main_example =
    init-main in_current_path contents append (λ text arg. refl) given by_default spicy
      (codes "/seuss.elf32") (codes "host=1;") (codes "mem=6;") allocation counters hot refl refl
      refl refl (omega arith) (omega arith) (omega arith) launches_spicy allocates
