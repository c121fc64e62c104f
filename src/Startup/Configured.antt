-- ===== src/Startup/Configured.antt =====
-- What `AppMain` starts, and the options that configure it.
use seuss.Prelude.{
  ℕ, ◌≡◌, refl, ap, sym, ◌∙◌, Bool, true, false, ◌||◌, Bool-cases, Option-cases, inl, inr, Option,
  none, some, List, [], ◌∷◌, Bytes, bytes_eq, codes, is_empty, if◌then◌else◌, arith,
}
use seuss.Openwhisk.Couchdb
use seuss.Kafka
use seuss.Dsys.Settings
use seuss.Dsys.Settings.{with_memory, with_zookeeper}
use seuss.Startup.Defs
use seuss.Startup.Defs.{
  Options, Process, Launch, exits, starts, and_then, is_mode, set_up_openwhisk, load_function,
  set_up_natives, main, Service, natives, controller, connect, test, app_main,
}

abbrev pub has_connect : List Service → Bool
has_connect [] = false
has_connect (connect ∷ l) = true
has_connect (other ∷ l) = has_connect l

abbrev pub has_natives : List Service → Bool
has_natives [] = false
has_natives (natives ∷ l) = true
has_natives (other ∷ l) = has_natives l

and_then-starts :
    (m : Launch) (next : Process → Launch) (p' : Process)
    → and_then m next ≡ starts p'
    → (p : Process) × (m ≡ starts p) × (next p ≡ starts p')
and_then-starts (exits status) next p' e = cc e
and_then-starts (starts p) next p' e = (p, refl, e)

-- Whether the two clients are configured, and whether a binary is given.
abbrev HasClients : Process → Type 0
HasClients p = (is_empty p.kafka.kafka_broker ≡ false) × (is_empty p.db.host ≡ false)

Couchdb-ready :
    (db db' : Couchdb.Couchdb) → Couchdb.init db ≡ (true, db') → is_empty db'.host ≡ false
unfolding Couchdb.init
Couchdb-ready db db' e = ground (arith, e)

Kafka-ready :
    (brokers : Option Bytes) (topic delay : Option ℕ) (k k' : Kafka.Defs.Kafka) (b : Bool)
    (made : Option Bytes)
    → Kafka.Defs.init brokers topic delay k ≡ (b, k', made)
    → (k'.mode ≡ k.mode) × (b ≡ true → is_empty k'.kafka_broker ≡ false)
unfolding Kafka.Defs.init
Kafka-ready none topic delay k k' b made e = ground (arith, e)
Kafka-ready (some brokers) topic delay k k' b made e = ground (arith, e)

set_up_openwhisk_kept :
    (o : Options) (p p' : Process)
    → set_up_openwhisk o p ≡ starts p'
    → (p'.kafka.mode ≡ p.kafka.mode)
      × ((is_mode (codes "default") p || is_mode (codes "null") p) ≡ true → HasClients p')
unfolding set_up_openwhisk Defs.process_program_options
set_up_openwhisk_kept o p p' e = ground (
  arith,
  e,
  Couchdb-ready p.db (Couchdb.init p.db).1,
  Kafka-ready o.kafka_brokers o.kafka_topic o.invoker_delay p.kafka _ _ _ refl,
)

module _ (in_current_path : Bytes → Bytes) (contents : Bytes → Option Bytes) where
  load_function_kept :
      (file : Option Bytes) (p p' : Process)
      → load_function in_current_path contents file p ≡ starts p'
      → (p'.kafka ≡ p.kafka) × (p'.db ≡ p.db)
  unfolding load_function
  load_function_kept none p p' e = ground (arith, e)
  load_function_kept (some file) p p' e = elim (Option-cases (contents (in_current_path file))) [
    | inl absent ↦ ground (arith, e, absent)
    | inr (function, there) ↦ ground (arith, e, there)
  ]

  natives-ready :
      ((file : Bytes) → is_empty (in_current_path file) ≡ false)
      → (elf32 zookeeper : Option Bytes) (s : Settings.Settings)
      → (Settings.process_program_options in_current_path elf32 zookeeper s).0 ≡ true
      → is_empty
          (Settings.process_program_options in_current_path elf32 zookeeper s).1.native_binary_path
        ≡ false
  unfolding Settings.process_program_options with_memory with_zookeeper
  natives-ready named none zookeeper s ready = cc ready
  natives-ready named (some file) none s ready = ground (arith, named file)
  natives-ready named (some file) (some host) s ready = ground (arith, named file)

  set_up_natives_kept :
      ((file : Bytes) → is_empty (in_current_path file) ≡ false)
      → (o : Options) (p p' : Process) → set_up_natives in_current_path contents o p ≡ starts p'
      → (p'.kafka ≡ p.kafka)
        × (p'.db ≡ p.db)
        × ((is_mode (codes "default") p || is_mode (codes "benchmark") p) ≡ true
            → is_empty p'.settings.native_binary_path ≡ false)
  unfolding set_up_natives
  set_up_natives_kept named o p p' e =
      ground (arith, e, natives-ready named o.elf32 o.zookeeper p.settings)

  pub main_steps :
      (o : Options) (p p' : Process)
      → main in_current_path contents (some o) p ≡ starts p'
      → (p₁ : Process) × (p₂ : Process) × (set_up_openwhisk o p ≡ starts p₁)
        × (load_function in_current_path contents o.file p₁ ≡ starts p₂)
        × (set_up_natives in_current_path contents o p₂ ≡ starts p')
  unfolding main
  main_steps o p p' e =
      let last : Process → Launch = set_up_natives in_current_path contents o in
      let next : Process → Launch =
        λ p₁. and_then (load_function in_current_path contents o.file p₁) last in
      elim (Bool-cases o.help) [
        | inl helped ↦ cc (e, helped)
        | inr go ↦
            let goes =
              ap (λ b. if b then exits 0 else and_then (set_up_openwhisk o p) next) (sym go) ∙ e in
            let (p₁, first, rest) = and_then-starts (set_up_openwhisk o p) next p' goes in
            let (p₂, second, third) =
              and_then-starts (load_function in_current_path contents o.file p₁) last p' rest in
            (p₁, p₂, first, second, third)
      ]

  -- Where `main` starts the runtime, what `AppMain` then starts has been configured: the loops of the Kafka
  -- client only with a broker and a database, the native instances only with the path of a binary. A
  -- path in the current directory is not empty. With a mode other than `default`, `benchmark` and `null`
  -- nothing is started.
  pub app_main-main :
      ((file : Bytes) → is_empty (in_current_path file) ≡ false)
      → (o : Options) (p p' : Process) → main in_current_path contents (some o) p ≡ starts p'
      → (has_connect (app_main p') ≡ true
          → (is_empty p'.kafka.kafka_broker ≡ false) × (is_empty p'.db.host ≡ false))
        × (has_natives (app_main p') ≡ true → is_empty p'.settings.native_binary_path ≡ false)
        × ((is_mode (codes "default") p
                || is_mode (codes "benchmark") p
                || is_mode (codes "null") p)
              ≡ false
            → app_main p' ≡ [])
  unfolding app_main
  app_main-main named o p p' e =
      let (p₁, p₂, first, second, last) = main_steps o p p' e in
      let (mode₁, clients) = set_up_openwhisk_kept o p p₁ first in
      let (kafka₂, db₂) = load_function_kept o.file p₁ p₂ second in
      let (kafka₃, db₃, binary) = set_up_natives_kept named o p₂ p' last in
      let mode₂ : p₂.kafka.mode ≡ p.kafka.mode =
        ap (λ (k : Kafka.Defs.Kafka). k.mode) kafka₂ ∙ mode₁ in
      let mode₃ : p'.kafka.mode ≡ p.kafka.mode =
        ap (λ (k : Kafka.Defs.Kafka). k.mode) kafka₃ ∙ mode₂ in
      ground (arith, clients, binary, kafka₂, kafka₃, db₂, db₃, mode₂, mode₃)
