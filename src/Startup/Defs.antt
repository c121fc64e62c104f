-- ===== src/Startup/Defs.antt =====
-- `main` and `AppMain` of the front end.
use seuss.Prelude.{
  ℕ, Bool, false, ◌||◌, Option, none, some, List, [], ◌∷◌, Bytes, bytes_eq, ◌==◌, codes,
  if◌then◌else◌,
}
use seuss.Openwhisk.Couchdb.{Couchdb}
use seuss.Openwhisk.Couchdb
use seuss.Kafka.Defs.{Kafka}
use seuss.Kafka.Defs
use seuss.Dsys.Settings.{Settings}
use seuss.Dsys.Settings

-- The options that the code reads itself. The library has stored the others in the variables they belong to.
pub record Options : Type 0 where
  pub help : Bool
  pub file : Option Bytes
  pub elf32 : Option Bytes
  pub zookeeper : Option Bytes
  pub kafka_brokers : Option Bytes
  pub kafka_topic : Option ℕ
  pub invoker_delay : Option ℕ

-- The global variables of the front end. The mode is one of those of the Kafka client.
pub record Process : Type 0 where
  pub db : Couchdb
  pub kafka : Kafka
  pub function : Bytes
  pub settings : Settings

-- The program ends with a status, or the runtime is started.
pub data Launch : Type 0 where
  exits : (status : ℕ) → Launch
  starts : Process → Launch

-- `openwhisk::process_program_options`
unfoldable pub process_program_options : Options → Process → Bool × Process
process_program_options o p =
    let (db_ready, db) = Couchdb.init p.db in
    let (kafka_ready, kafka, topic) =
      Defs.init o.kafka_brokers o.kafka_topic o.invoker_delay p.kafka in
    if db_ready
    then (kafka_ready, record p { db = db; kafka = kafka })
    else (false, record p { db = db })

abbrev pub is_mode : (name : Bytes) → Process → Bool
is_mode name p = p.kafka.mode == name

-- Each step goes on to the next one, unless the program ends.
abbrev pub and_then : Launch → (Process → Launch) → Launch
and_then (exits status) next = exits status
and_then (starts p) next = next p

unfoldable pub set_up_openwhisk : Options → Process → Launch
unfolding process_program_options
set_up_openwhisk o p =
    let (ready, p') = process_program_options o p in
    if is_mode (codes "default") p || is_mode (codes "null") p
    then (if ready then starts p' else exits 1)
    else starts p

-- `in_current_path` is the path of a file in the current directory, and `contents` what such a file holds, if it
-- can be opened.
module _ (in_current_path : Bytes → Bytes) (contents : Bytes → Option Bytes) where
  unfoldable pub load_function : Option Bytes → Process → Launch
  load_function none p = starts p
  load_function (some file) p =
      if is_mode (codes "benchmark") p
      then elim (contents (in_current_path file)) [
        | none ↦ exits 1
        | some function ↦ starts (record p { function = function })
      ]
      else starts p

  unfoldable pub set_up_natives : Options → Process → Launch
  set_up_natives o p =
      let (ready, settings) =
        Settings.process_program_options in_current_path o.elf32 o.zookeeper p.settings in
      if is_mode (codes "default") p || is_mode (codes "benchmark") p
      then (if ready then starts (record p { settings = settings }) else exits 1)
      else starts p

  -- `main`, on a command line that the library has read; `none` is an error of it.
  unfoldable pub main : Option Options → Process → Launch
  unfolding set_up_openwhisk load_function set_up_natives
  main none p = exits 1
  main (some o) p =
      if o.help
      then exits 0
      else and_then (set_up_openwhisk o p)
          (λ p₁. and_then (load_function o.file p₁) (λ p₂. set_up_natives o p₂))

-- What is started: the native instances, the controller, the two loops of the Kafka client, the benchmark.
pub data Service : Type 0 where
  natives controller connect test : Service

-- `AppMain`
unfoldable pub app_main : Process → List Service
app_main p =
    if is_mode (codes "default") p
    then natives ∷ controller ∷ connect ∷ []
    else if is_mode (codes "benchmark") p
    then natives ∷ controller ∷ test ∷ []
    else if is_mode (codes "null") p
    then connect ∷ []
    else []
