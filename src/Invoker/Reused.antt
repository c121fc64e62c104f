-- ===== src/Invoker/Reused.antt =====
-- A warm start and a hot start that go well, from the connection to the reply.
use seuss.Prelude.{
  ℕ, nat_eq, ◌≡◌, refl, ◌∙◌, ◌≢◌, Bool, true, false, none, some, List, [], ◌∷◌, ◌++◌, ok, Bytes,
  codes, is_empty, drop, find_first_of, bytes_eq, arith,
}
use seuss.Table.{find}
use seuss.Invocation.{Invocation, InvocationStats}
use seuss.Root.Defs.{get_snapshot}
use seuss.Hot.Defs.{hot_instances_are_enabled, hot_instance_exists}
use seuss.Hot.Invariant.{taken, get_hot_instance_lem}
use seuss.Session.Defs.{status_line}
use seuss.Invoker.Defs.{
  Output, create_from, register_port, load_and_start, set_active, signal_resume, spawn_poke,
  get_internal_port, begin_invoke,
}
use seuss.Invoker.Ports.{get_internal_port_bounds}
use seuss.Invoker.Starts.{
  Node, finished, Event, run_attempt, process_hot_start, process_warm_start, or_else, conclude,
  invoke,
}
use seuss.Invoker.Served.{replies, made}
use seuss.Invoker.Answered.{answered, answered_stats, events-answered}
use seuss.Invoker.Attempts.{
  first_job, after_attempt, run_attempt-EndsWell, replies-poke, made-poke, after_invoke, begun,
}

-- The record that a warm start begins with.
abbrev pub warm_stats : InvocationStats → InvocationStats
warm_stats istats = record istats { exec = record istats.exec { init_time = 1 } }

module _ (known : ℕ → Bool) (num_cpus mine warm_id cold_id t₀ t₁ t₂ brace : ℕ) (reply : Bytes)
    (i : Invocation) (n : Node) (at : find_first_of b'{' reply ≡ some brace)
    (good : status_line reply ≡ codes "HTTP/1.1 200 OK")
    (other : drop brace reply ≢ codes "{\"OK\":true}") (some_args : is_empty i.args ≡ false)
    (has_fid : i.info.function_id ≢ 0) where
  run_attempt-answered :
      (istats : InvocationStats) (umi_id : ℕ) (prepare : (port : ℕ) → List Output) (m : Node)
      → umi_id ≢ 0
      → known umi_id ≡ true
      → (outs : List Output) × (run_attempt known num_cpus mine false
            (answered t₀ t₁ t₂ reply)
            i
            istats
            umi_id
            []
            prepare
            m
          ≡ ok (
            finished true,
            after_attempt num_cpus mine i.info.function_id umi_id m.root m,
            prepare (get_internal_port num_cpus mine m.counters).0 ++ outs,
          ))
        × (replies outs ≡ (answered_stats t₁ t₂ istats, drop brace reply) ∷ [])
        × (made outs ≡ [])
  run_attempt-answered istats umi_id prepare m has_id is_known =
      run_attempt-EndsWell known num_cpus mine false (answered t₀ t₁ t₂ reply) i istats umi_id []
        prepare m m.root
        (events-answered known false t₀ t₁ t₂ brace (get_internal_port num_cpus mine m.counters).0
          reply (first_job num_cpus mine i istats umi_id [] m) at good other
          (λ z. omega (arith, (get_internal_port_bounds num_cpus mine m.counters).0)) refl refl
          some_args has_fid has_id is_known)

  -- An invocation of a function of which the node, which has booted, has a snapshot, and no idle
  -- instance. First a new instance is created from that very snapshot, gets the next port of the
  -- core, and is loaded and started; after that no instance is made. The instance accepts the
  -- connection, answers `200 OK` with a result other than `{"OK":true}`, and closes. Then `Invoke`
  -- succeeds, and exactly one reply goes out, with an initialisation time of 1. The node is left as
  -- it was, but for the counters of the core, and the new instance that was offered to the cache.
  -- The invocation has arguments and a function id that is not 0, and the manager knows the new
  -- instance by an id other than 0.
  pub warm_start_replies :
      (hot_es cold_es : List Event) (sv : ℕ)
      → find i.info.function_id n.hot.stalled_instance_map ≡ none
      → n.root.is_bootstrapped ≡ true
      → find i.info.function_id n.root.snapmap ≡ some sv
      → warm_id ≢ 0
      → known warm_id ≡ true
      → (outs : List Output) × (invoke known num_cpus mine warm_id cold_id hot_es
            (answered t₀ t₁ t₂ reply)
            cold_es
            i
            n
          ≡ ok (
            finished true,
            after_invoke (after_attempt num_cpus mine i.info.function_id warm_id n.root (begun n)),
            create_from sv warm_id
                ∷ register_port warm_id (get_internal_port num_cpus mine n.counters).0
                ∷ load_and_start warm_id
                ∷ outs,
          ))
        × (replies outs ≡ (answered_stats t₁ t₂ (warm_stats i.info), drop brace reply) ∷ [])
        × (made outs ≡ [])
  unfolding invoke process_hot_start process_warm_start or_else conclude hot_instance_exists
      get_snapshot get_internal_port begin_invoke
  warm_start_replies hot_es cold_es sv no_instance booted cached has_id is_known =
      let prepare : ℕ → List Output =
        λ port. create_from sv warm_id ∷ register_port warm_id port ∷ load_and_start warm_id ∷ [] in
      let (outs, e, sent, none_made) =
        run_attempt-answered (warm_stats i.info) warm_id prepare (begun n) has_id is_known in
      (
        outs ++ spawn_poke ∷ [],
        ground (arith, no_instance, booted, cached, e),
        replies-poke outs ∙ sent,
        made-poke outs ∙ none_made,
      )

  -- An invocation of a function for which an instance is idle, on a core that keeps idle instances.
  -- First this instance gets the next port of the core, is set active and is told to resume; no
  -- instance is made. It accepts the connection, answers `200 OK` with a result other than
  -- `{"OK":true}`, and closes. Then `Invoke` succeeds, and exactly one reply goes out. The instance
  -- is taken out of the cache for the time of the invocation, and offered to it afterwards. The
  -- invocation has arguments and a function id that is not 0, and the manager knows the instance by
  -- an id other than 0.
  pub hot_start_replies :
      (warm_es cold_es : List Event) (id : ℕ)
      → n.hot.hot_instance_limit ≢ 0
      → find i.info.function_id n.hot.stalled_instance_map ≡ some id
      → id ≢ 0
      → known id ≡ true
      → (outs : List Output) × (invoke known num_cpus mine warm_id cold_id
            (answered t₀ t₁ t₂ reply)
            warm_es
            cold_es
            i
            n
          ≡ ok (
            finished true,
            after_invoke (
                after_attempt num_cpus mine i.info.function_id id n.root
                  (begun (record n { hot = taken n.hot i.info.function_id }))),
            register_port id (get_internal_port num_cpus mine n.counters).0
                ∷ set_active id
                ∷ signal_resume id
                ∷ outs,
          ))
        × (replies outs ≡ (answered_stats t₁ t₂ i.info, drop brace reply) ∷ [])
        × (made outs ≡ [])
  unfolding invoke process_hot_start or_else conclude hot_instance_exists hot_instances_are_enabled
      get_internal_port begin_invoke
  hot_start_replies warm_es cold_es id enabled idle has_id is_known =
      let prepare : ℕ → List Output =
        λ port. register_port id port ∷ set_active id ∷ signal_resume id ∷ [] in
      let m = begun (record n { hot = taken n.hot i.info.function_id }) in
      let (outs, e, sent, none_made) = run_attempt-answered i.info id prepare m has_id is_known in
      (
        outs ++ spawn_poke ∷ [],
        ground (
          arith,
          enabled,
          idle,
          get_hot_instance_lem n.hot i.info.function_id idle,
          has_id,
          is_known,
          e,
        ),
        replies-poke outs ∙ sent,
        made-poke outs ∙ none_made,
      )
