-- ===== src/Startup/Notify.antt =====
-- The options of the command line that the program declares, with their defaults, and what the library
-- stores in the global variables before `main` goes on (`po::notify`): src/hosted/main.cc, and the
-- functions `program_options` of src/dsys/dsys.cc, src/openwhisk/openwhisk.cc, src/openwhisk/kafka.cc and
-- src/openwhisk/couchdb.cc.
use seuss.Prelude.{ℕ, Bool, Option, none, some, Bytes, codes}
use seuss.Openwhisk.Couchdb.{Couchdb}
use seuss.Kafka.Defs.{or_kept}
use seuss.Dsys.Settings.{Settings}
use seuss.Startup.Defs.{Options, Process, Launch, main}

-- `dsys::program_options`: the values on the command line. All numbers are of type `uint16_t`.
pub record DsysGiven : Type 0 where
  pub concurrency_limit : Option ℕ
  pub spicy_limit : Option ℕ
  pub reuse_limit : Option ℕ
  pub natives : Option ℕ
  pub cores : Option ℕ
  pub ram : Option ℕ
  pub numa : Option ℕ
  pub elf32 : Option Bytes
  pub zookeeper : Option Bytes

-- `couchdb::program_options`, as far as the program reads them.
pub record CouchdbGiven : Type 0 where
  pub couchdb_host : Option Bytes
  pub couchdb_password : Option Bytes
  pub couchdb_port : Option Bytes
  pub couchdb_protocol : Option Bytes
  pub couchdb_username : Option Bytes
  pub couchdb_db_entity : Option Bytes

-- `kafka::program_options`
pub record KafkaGiven : Type 0 where
  pub kafka_brokers : Option Bytes
  pub kafka_topic : Option ℕ

pub record Given : Type 0 where
  pub help : Bool
  pub mode : Option Bytes
  pub invoker_delay : Option ℕ
  pub file : Option Bytes
  pub dsys : DsysGiven
  pub couchdb : CouchdbGiven
  pub kafka : KafkaGiven

-- An option without a default leaves its variable as it is.
unfoldable pub store_dsys : DsysGiven → Settings → Settings
unfolding or_kept
store_dsys g s = record s {
  native_invoker_core_concurrency_limit = or_kept g.concurrency_limit 12;
  native_invoker_core_spicy_limit = or_kept g.spicy_limit 0;
  native_invoker_core_spicy_reuse = or_kept g.reuse_limit 300;
  native_instance_count = or_kept g.natives 1;
  native_core_count = or_kept g.cores 2;
  native_memory_gb = or_kept g.ram 4;
  native_numa_count = or_kept g.numa 1;
}

unfoldable pub store_couchdb : CouchdbGiven → Couchdb → Couchdb
unfolding or_kept
store_couchdb g db = record db {
  host = or_kept g.couchdb_host db.host;
  password = or_kept g.couchdb_password db.password;
  port = or_kept g.couchdb_port db.port;
  protocol = or_kept g.couchdb_protocol db.protocol;
  username = or_kept g.couchdb_username db.username;
  db_entity = or_kept g.couchdb_db_entity db.db_entity;
}

-- The variables after `po::notify`.
unfoldable pub notify : Given → Process → Process
unfolding store_dsys store_couchdb
notify g p = record p {
  settings = store_dsys g.dsys p.settings;
  db = store_couchdb g.couchdb p.db;
  kafka = record p.kafka { mode = or_kept g.mode (codes "default") };
}

-- The options that the code reads itself, where the delay has a default.
unfoldable pub options_of : Given → Options
unfolding or_kept
options_of g = record {
  help = g.help;
  file = g.file;
  elf32 = g.dsys.elf32;
  zookeeper = g.dsys.zookeeper;
  kafka_brokers = g.kafka.kafka_brokers;
  kafka_topic = g.kafka.kafka_topic;
  invoker_delay = some (or_kept g.invoker_delay 0);
}

module _ (in_current_path : Bytes → Bytes) (contents : Bytes → Option Bytes) where
  -- `main`, by the values on its command line; `none` is an error of the library.
  unfoldable pub main_with : Option Given → Process → Launch
  unfolding notify options_of
  main_with none p = main in_current_path contents none p
  main_with (some g) p = main in_current_path contents (some (options_of g)) (notify g p)
