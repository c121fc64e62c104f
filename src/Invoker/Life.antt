-- ===== src/Invoker/Life.antt =====
-- A cold start that goes well, from the connection to the reply.
use seuss.Prelude.{
  ℕ, nat_eq, ◌≡◌, refl, append-nil, ap, ◌∙◌, ◌≢◌, ◌<◌, Bool, not, true, false, Option, none, some,
  List, [], ◌∷◌, ◌++◌, ok, Bytes, codes, is_empty, drop, find_first_of, bytes_eq, arith,
}
use seuss.Table.{find}
use seuss.Invocation.{Invocation, InvocationStats}
use seuss.Root.Defs.{InvokerRoot, cache_is_full, get_base_sv}
use seuss.Session.Defs.{
  status_line, on_close, connected, initialized, executed, closed, get_inittime, get_runtime,
  disable_timer, new_session, connect,
}
use seuss.Session.History.{connects, connects_done, receives, closes, step}
use seuss.Invoker.Defs.{
  callback, when_executed, begin_invoke, Output, spawn_poke, end_invoke, create_from, register_port,
  load_and_start, get_internal_port,
}
use seuss.Invoker.Ports.{get_internal_port_bounds}
use seuss.Invoker.Starts.{
  Node, Job, finished, Event, status_of, process_cold_start, conclude, invoke,
}
use seuss.Invoker.Events.{
  events-none, events-handler, events-calls_back, connecting, connect-new_session,
}
use seuss.Invoker.Attempts.{
  first_job, after_attempt, run_attempt-EndsWell, replies-poke, made-poke, after_invoke, begun,
}
use seuss.Invoker.Fallback.{invoke_first}
use seuss.Prelude.Clock.{elapsed}
use seuss.Invoker.Served.{
  replies, served, up, on_connected-up, init_sent, when_connected-init, run_sent,
  when_initialized-run, receive-ready, receive-reply, when_closed-kept_hot, EndsWell, made,
  kept_root, events-snapshots,
}

abbrev pub served_stats : (t₁ t₂ t₃ : ℕ) → InvocationStats → InvocationStats
served_stats t₁ t₂ t₃ istats = record istats {
  exec = record { run_time = elapsed t₃ t₂; init_time = elapsed t₂ t₁; status = false };
}

events-served :
    (known : ℕ → Bool) (checkpoint : Bool) (t₀ t₁ t₂ t₃ brace brace' port : ℕ) (snap : Option ℕ)
    (ready reply : Bytes) (j : Job)
    → j.node.root.is_bootstrapped ≡ true
    → find_first_of b'{' ready ≡ some brace
    → status_line ready ≡ codes "HTTP/1.1 200 OK"
    → drop brace ready ≡ codes "{\"OK\":true}"
    → find_first_of b'{' reply ≡ some brace'
    → status_line reply ≡ codes "HTTP/1.1 200 OK"
    → port ≢ 0
    → j.attempt.session ≡ new_session port
    → is_empty j.attempt.code ≡ false
    → is_empty j.attempt.args ≡ false
    → j.attempt.fid ≢ 0
    → j.attempt.umi_id ≢ 0
    → known j.attempt.umi_id ≡ true
    → EndsWell known checkpoint
        (served t₀ t₁ t₂ t₃ snap ready reply)
        j
        (kept_root checkpoint j.node.root j.attempt.fid snap)
        (served_stats t₁ t₂ t₃ j.attempt.istats, drop brace' reply)
unfolding step callback when_executed on_close disable_timer status_of get_inittime get_runtime
    new_session
events-served known checkpoint t₀ t₁ t₂ t₃ brace brace' port snap ready reply j booted r₁ r₂ r₃ p₁
      p₂ far new some_code some_args f u k =
    let a₀ = record j.attempt { session = connecting t₀ port } in
    let a₁ = record j.attempt { session = up t₁ port } in
    let a₂ = init_sent t₁ a₁ in
    let node = record j.node { root = kept_root checkpoint j.node.root j.attempt.fid snap } in
    let a₃ = record a₂ { session = record a₂.session { is_initialized = true } } in
    let a₄ = run_sent t₂ a₃ in
    let a₅ = record a₄ { session = record a₄.session { reply = drop brace' reply } } in
    let exec = record a₅.istats.exec { status = false; run_time = get_runtime t₃ a₅.session } in
    let a₆ = record a₅ { istats = record a₅.istats { exec = exec } } in
    let a₇ = record a₆ { session = (on_close a₆.session).0 } in
    let sent : InvocationStats × Bytes =
      (served_stats t₁ t₂ t₃ j.attempt.istats, drop brace' reply) in
    let (a₈, outs, e, finishes, silent, none_made) =
      when_closed-kept_hot known a₇ j.node.hot f u k refl in
    (
      _,
      _,
      events-handler known checkpoint (connects t₀) _ j
          (ap (connect t₀) new ∙ connect-new_session t₀ port far)
          (events-handler known checkpoint (connects_done t₁) _ (record j { attempt = a₀ })
            (ap ok (on_connected-up t₀ t₁ port))
            (events-calls_back known checkpoint t₁ connected _ (record j { attempt = a₁ })
              (when_connected-init t₁ a₁ j.node.hot some_code)
              (events-snapshots known checkpoint snap _ (record j { attempt = a₂ }) booted
                (events-handler known checkpoint (receives false ready) _
                  (record { node = node; attempt = a₂ })
                  (receive-ready ready brace a₂.session r₁ r₂ r₃ refl)
                  (events-calls_back known checkpoint t₂ initialized _
                    (record { node = node; attempt = a₃ })
                    (when_initialized-run t₂ a₃ j.node.hot some_args)
                    (events-handler known checkpoint (receives false reply) _
                      (record { node = node; attempt = a₄ })
                      (receive-reply reply brace' a₄.session p₁ p₂ refl)
                      (events-calls_back known checkpoint t₃ executed _
                        (record { node = node; attempt = a₅ }) refl
                        (events-handler known checkpoint closes _
                          (record { node = node; attempt = a₆ }) refl
                          (events-calls_back known checkpoint t₃ closed _
                            (record { node = node; attempt = a₇ }) e
                            (events-none known checkpoint _)))))))))),
      ap status_of (append-nil outs) ∙ finishes,
      ap (λ rest. sent ∷ replies rest) (append-nil outs) ∙ ap (λ rest. sent ∷ rest) silent,
      ap made (append-nil outs) ∙ none_made,
      refl,
    )

-- The root after a cold start that may have captured a snapshot.
abbrev pub snapped : InvokerRoot → (fid : ℕ) → Option ℕ → InvokerRoot
snapped r fid snap = kept_root (not (cache_is_full r)) r fid snap

module _ (known : ℕ → Bool) (num_cpus mine warm_id cold_id t₀ t₁ t₂ t₃ brace brace' : ℕ)
    (snap : Option ℕ) (ready reply : Bytes) (i : Invocation) (n : Node)
    (at : find_first_of b'{' ready ≡ some brace)
    (good : status_line ready ≡ codes "HTTP/1.1 200 OK")
    (same : drop brace ready ≡ codes "{\"OK\":true}") (at' : find_first_of b'{' reply ≡ some brace')
    (good' : status_line reply ≡ codes "HTTP/1.1 200 OK") (some_code : is_empty i.code ≡ false)
    (some_args : is_empty i.args ≡ false) (has_fid : i.info.function_id ≢ 0) (has_id : cold_id ≢ 0)
    (is_known : known cold_id ≡ true) where
  -- The first invocation of a function in full: the node that is left, and the one instance made.
  pub cold_start_lem :
      (hot_es warm_es : List Event)
      → find i.info.function_id n.hot.stalled_instance_map ≡ none
      → n.root.is_bootstrapped ≡ true
      → find i.info.function_id n.root.snapmap ≡ none
      → (outs : List Output) × (invoke known num_cpus mine warm_id cold_id hot_es warm_es
            (served t₀ t₁ t₂ t₃ snap ready reply)
            i
            n
          ≡ ok (
            finished true,
            after_invoke (
                after_attempt num_cpus mine i.info.function_id cold_id
                  (snapped n.root i.info.function_id snap)
                  (begun n)),
            outs,
          ))
        × (replies outs ≡ (served_stats t₁ t₂ t₃ i.info, drop brace' reply) ∷ [])
        × (made outs ≡ cold_id ∷ [])
  unfolding process_cold_start get_base_sv conclude get_internal_port
  cold_start_lem hot_es warm_es no_instance booted no_snapshot =
      let m = begun n in
      let port = (get_internal_port num_cpus mine m.counters).0 in
      let prepare : ℕ → List Output = λ port.
        create_from n.root.base_um_env cold_id
        ∷ register_port cold_id port
        ∷ load_and_start cold_id
        ∷ [] in
      let checkpoint = not (cache_is_full n.root) in
      let (outs, e, sent, none_made) =
        run_attempt-EndsWell known num_cpus mine checkpoint (served t₀ t₁ t₂ t₃ snap ready reply) i
          i.info cold_id i.code prepare m (snapped n.root i.info.function_id snap)
          (events-served known checkpoint t₀ t₁ t₂ t₃ brace brace' port snap ready reply
            (first_job num_cpus mine i i.info cold_id i.code m) booted at good same at' good'
            (λ z. omega (arith, (get_internal_port_bounds num_cpus mine m.counters).0)) refl
            some_code some_args has_fid has_id is_known) in
      (
        (prepare port ++ outs) ++ spawn_poke ∷ [],
        invoke_first known num_cpus mine warm_id cold_id hot_es warm_es i n no_instance booted
              no_snapshot (served t₀ t₁ t₂ t₃ snap ready reply)
            ∙ simp (booted, e),
        replies-poke outs ∙ sent,
        ap (◌∷◌ cold_id) (made-poke outs ∙ none_made),
      )

  -- The first invocation of a function: no instance is idle for it, and the node, which has booted,
  -- has no snapshot of it. The instance accepts the connection, answers `200 OK` with
  -- `{"OK":true}`, answers `200 OK` with a result, and closes; meanwhile its snapshot is captured,
  -- or not. Then `Invoke` succeeds, exactly one reply goes out, with the invocation's record, the
  -- times measured and the text of the result, and the core has its capacity back. The invocation
  -- has code and arguments and a function id that is not 0, the manager knows the new instance by
  -- an id other than 0, and the counter of the core fits into its byte.
  pub cold_start_replies :
      (hot_es warm_es : List Event)
      → find i.info.function_id n.hot.stalled_instance_map ≡ none
      → n.root.is_bootstrapped ≡ true
      → find i.info.function_id n.root.snapmap ≡ none
      → n.counters.request_concurrency < 256
      → (n' : Node) × (outs : List Output) × (invoke known num_cpus mine warm_id cold_id hot_es
            warm_es
            (served t₀ t₁ t₂ t₃ snap ready reply)
            i
            n
          ≡ ok (finished true, n', outs))
        × (replies outs ≡ (served_stats t₁ t₂ t₃ i.info, drop brace' reply) ∷ [])
        × (n'.counters.request_concurrency ≡ n.counters.request_concurrency)
  unfolding begin_invoke end_invoke get_internal_port
  cold_start_replies hot_es warm_es no_instance booted no_snapshot fits =
      let (outs, e, sent, one_made) =
        cold_start_lem hot_es warm_es no_instance booted no_snapshot in
      (_, outs, e, sent, omega (arith, fits))
