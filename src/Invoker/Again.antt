-- ===== src/Invoker/Again.antt =====
-- Two invocations of one function, one after the other.
use seuss.Prelude.{
  ℕ, nat_eq, ◌≡◌, refl, ap, sym, ◌∙◌, ◌≢◌, Bool, not, true, false, Option, none, some, List, [],
  ◌∷◌, ok, Bytes, codes, is_empty, drop, find_first_of, bytes_eq, arith, if◌then◌else◌,
}
use seuss.Table.{find, find-cons}
use seuss.Invocation.{Invocation}
use seuss.Root.Defs.{InvokerRoot, cache_is_full}
use seuss.Hot.Invariant.{can_save, saved}
use seuss.Session.Defs.{status_line}
use seuss.Invoker.Defs.{Output}
use seuss.Invoker.Starts.{Node, finished, Event, invoke}
use seuss.Invoker.Served.{replies, made, served, kept_root}
use seuss.Invoker.Answered.{answered, answered_stats}
use seuss.Invoker.Attempts.{after_attempt, after_invoke, begun}
use seuss.Invoker.Life.{snapped, cold_start_lem}
use seuss.Invoker.Reused.{warm_stats, warm_start_replies, hot_start_replies}

kept_root-booted :
    (checkpoint : Bool) (r : InvokerRoot) (fid : ℕ) (snap : Option ℕ)
    → (kept_root checkpoint r fid snap).is_bootstrapped ≡ r.is_bootstrapped
kept_root-booted checkpoint r fid none = refl
kept_root-booted false r fid (some sv) = refl
kept_root-booted true r fid (some sv) = ground arith

module _ (known : ℕ → Bool) (num_cpus mine warm_id cold_id t₀ t₁ t₂ t₃ brace brace' : ℕ)
    (snap : Option ℕ) (ready reply : Bytes) (i : Invocation) (n : Node)
    (at : find_first_of b'{' ready ≡ some brace)
    (good : status_line ready ≡ codes "HTTP/1.1 200 OK")
    (same : drop brace ready ≡ codes "{\"OK\":true}") (at' : find_first_of b'{' reply ≡ some brace')
    (good' : status_line reply ≡ codes "HTTP/1.1 200 OK") (some_code : is_empty i.code ≡ false)
    (some_args : is_empty i.args ≡ false) (has_fid : i.info.function_id ≢ 0) (has_id : cold_id ≢ 0)
    (is_known : known cold_id ≡ true)
    (no_instance : find i.info.function_id n.hot.stalled_instance_map ≡ none)
    (booted : n.root.is_bootstrapped ≡ true)
    (no_snapshot : find i.info.function_id n.root.snapmap ≡ none) where
  -- What the first invocation leaves.
  abbrev left : Node
  left = after_invoke (
      after_attempt num_cpus mine i.info.function_id cold_id
        (snapped n.root i.info.function_id snap) (begun n))

  kept_instance :
      can_save n.hot i.info.function_id cold_id ≡ true
      → find i.info.function_id left.hot.stalled_instance_map ≡ some cold_id
  kept_instance kept =
      let fid = i.info.function_id in
      ap
        (λ (b : Bool). find fid (if b then saved n.hot fid cold_id else n.hot).stalled_instance_map)
        kept
      ∙ find-cons fid fid cold_id n.hot.stalled_instance_map
      ∙ ground arith

  enabled : can_save n.hot i.info.function_id cold_id ≡ true → left.hot.hot_instance_limit ≢ 0
  enabled kept z = ground (arith, kept, z)

  not_kept_instance :
      can_save n.hot i.info.function_id cold_id ≡ false
      → find i.info.function_id left.hot.stalled_instance_map ≡ none
  not_kept_instance not_kept = ground (arith, not_kept, no_instance)

  kept_snapshot :
      (sv : ℕ)
      → snap ≡ some sv
      → cache_is_full n.root ≡ false
      → find i.info.function_id left.root.snapmap ≡ some sv
  kept_snapshot sv captures room =
      let fid = i.info.function_id in
      ap (λ s. find fid (kept_root (not (cache_is_full n.root)) n.root fid s).snapmap) captures
      ∙ ground (arith, room, no_snapshot, find-cons fid fid sv n.root.snapmap)

  module _ (warm_id' cold_id' s₀ s₁ s₂ brace'' : ℕ) (reply' : Bytes) (i' : Invocation)
      (at'' : find_first_of b'{' reply' ≡ some brace'')
      (good'' : status_line reply' ≡ codes "HTTP/1.1 200 OK")
      (other : drop brace'' reply' ≢ codes "{\"OK\":true}") (some_args' : is_empty i'.args ≡ false)
      (again : i'.info.function_id ≡ i.info.function_id) where
    -- Two invocations of a function. The first is on a node that has booted, with neither an idle
    -- instance nor a snapshot of the function. It has code, arguments and a function id that is not
    -- 0. Its new instance, which the manager knows by an id other than 0, accepts the connection,
    -- answers `200 OK` with `{"OK":true}`, answers `200 OK` with a result, and closes; meanwhile
    -- its snapshot is captured, or not. It succeeds, with this one instance made. If the tests of
    -- the cache let the core keep the instance, then the next invocation on the core is a hot start
    -- of it: it has arguments, and its instance accepts the connection, answers `200 OK` with a
    -- result other than `{"OK":true}`, and closes. It succeeds, exactly one reply goes out, and no
    -- instance is made.
    pub cold_then_hot :
        (hot_es warm_es warm_es' cold_es' : List Event)
        → can_save n.hot i.info.function_id cold_id ≡ true
        → (n' : Node) × (outs : List Output) × (m : Node) × (outs' : List Output) × (invoke known
              num_cpus mine warm_id cold_id hot_es warm_es
              (served t₀ t₁ t₂ t₃ snap ready reply)
              i
              n
            ≡ ok (finished true, n', outs))
          × (made outs ≡ cold_id ∷ [])
          × (invoke known num_cpus mine warm_id' cold_id'
                (answered s₀ s₁ s₂ reply')
                warm_es'
                cold_es'
                i'
                n'
              ≡ ok (finished true, m, outs'))
          × (replies outs' ≡ (answered_stats s₁ s₂ i'.info, drop brace'' reply') ∷ [])
          × (made outs' ≡ [])
    cold_then_hot hot_es warm_es warm_es' cold_es' kept =
        let (outs, e, sent, one_made) =
          cold_start_lem known num_cpus mine warm_id cold_id t₀ t₁ t₂ t₃ brace brace' snap ready
            reply i n at good same at' good' some_code some_args has_fid has_id is_known hot_es
            warm_es no_instance booted no_snapshot in
        let (outs', e', sent', none_made) =
          hot_start_replies known num_cpus mine warm_id' cold_id' s₀ s₁ s₂ brace'' reply' i' left
            at'' good'' other some_args' (λ z. has_fid (sym again ∙ z)) warm_es' cold_es' cold_id
            (enabled kept)
            (ap (λ f. find f left.hot.stalled_instance_map) again ∙ kept_instance kept) has_id
            is_known in
        (left, outs, _, _, e, one_made, e', sent', none_made)

    -- Two invocations of a function. The first is on a node that has booted, with neither an idle
    -- instance nor a snapshot of the function. It has code, arguments and a function id that is not
    -- 0. Its new instance, which the manager knows by an id other than 0, accepts the connection,
    -- answers `200 OK` with `{"OK":true}`, answers `200 OK` with a result, and closes. It succeeds,
    -- with this one instance made. If the tests of the cache do not let the core keep the instance,
    -- but its snapshot was captured and the snapshot cache was not full, then the next invocation
    -- on the core is a warm start: it has arguments, and its instance accepts the connection,
    -- answers `200 OK` with a result other than `{"OK":true}`, and closes. It succeeds, and exactly
    -- one reply goes out, with the one instance that is made for it, which the manager knows by an
    -- id other than 0.
    pub cold_then_warm :
        (hot_es warm_es hot_es' cold_es' : List Event) (sv : ℕ)
        → can_save n.hot i.info.function_id cold_id ≡ false
        → snap ≡ some sv
        → cache_is_full n.root ≡ false
        → warm_id' ≢ 0
        → known warm_id' ≡ true
        → (n' : Node) × (outs : List Output) × (m : Node) × (outs' : List Output) × (invoke known
              num_cpus mine warm_id cold_id hot_es warm_es
              (served t₀ t₁ t₂ t₃ snap ready reply)
              i
              n
            ≡ ok (finished true, n', outs))
          × (made outs ≡ cold_id ∷ [])
          × (invoke known num_cpus mine warm_id' cold_id' hot_es'
                (answered s₀ s₁ s₂ reply')
                cold_es'
                i'
                n'
              ≡ ok (finished true, m, outs'))
          × (replies outs' ≡ (answered_stats s₁ s₂ (warm_stats i'.info), drop brace'' reply') ∷ [])
          × (made outs' ≡ warm_id' ∷ [])
    cold_then_warm hot_es warm_es hot_es' cold_es' sv not_kept captures room has_id' is_known' =
        let (outs, e, sent, one_made) =
          cold_start_lem known num_cpus mine warm_id cold_id t₀ t₁ t₂ t₃ brace brace' snap ready
            reply i n at good same at' good' some_code some_args has_fid has_id is_known hot_es
            warm_es no_instance booted no_snapshot in
        let (outs', e', sent', none_made') =
          warm_start_replies known num_cpus mine warm_id' cold_id' s₀ s₁ s₂ brace'' reply' i' left
            at'' good'' other some_args' (λ z. has_fid (sym again ∙ z)) hot_es' cold_es' sv
            (ap (λ f. find f left.hot.stalled_instance_map) again ∙ not_kept_instance not_kept)
            (kept_root-booted (not (cache_is_full n.root)) n.root i.info.function_id snap ∙ booted)
            (ap (λ f. find f left.root.snapmap) again ∙ kept_snapshot sv captures room) has_id'
            is_known' in
        (left, outs, _, _, e, one_made, e', sent', ap (◌∷◌ warm_id') none_made')
