-- ===== src/Flow/Trip.antt =====
-- An activation from the front end to a node and back: `Controller::ScheduleActivation`, the request,
-- `Invoker::Queue`, `Invoker::Poke`, a cold start, `Invoker::Resolve`, the reply, and
-- `Controller::ResolveActivation` (src/SeussController.cc, src/SeussChannel.cc, src/SeussInvoker.cc).
use seuss.Prelude.{
  ℕ, ◌≡◌, ◌≢◌, refl, ap, sym, ◌∙◌, Bool, true, false, Option, none, some, List, [], ◌∷◌, ◌++◌,
  nat_eq, Bytes, codes, bytes_eq, is_empty, drop, find_first_of, length, Result, ok, ◌>>=◌,
}
use seuss.Prelude.Int.{ℤ, pos}
use seuss.Table.{find}
use seuss.Invocation.{InvocationStats, Invocation}
use seuss.Root.Defs.{InvokerRoot}
use seuss.Root.Queue.{IsQueued, view, has_tid, add_work-IsQueued}
use seuss.Root.Queue.Calls.{add_work-view, add_work-caches, get_work-caches}
use seuss.Channel.Defs.{SeussChannel}
use seuss.Openwhisk.Msg.{ActivationMessage, CompletionMessage, new_completion}
use seuss.Controller.Defs.{Controller, Outgoing, schedule_with_code, complete}
use seuss.Controller.Records.{resolve-schedule}
use seuss.Session.Defs.{status_line}
use seuss.Invoker.Defs.{has_capacity, Output}
use seuss.Invoker.Starts.{Node, Event, finished}
use seuss.Invoker.Poke.{runs, poke, poke_oldest}
use seuss.Invoker.Served.{served, replies}
use seuss.Invoker.Life.{served_stats, cold_start_lem}
use seuss.Flow.{delivered, delivered-add_work}
use seuss.Flow.Back.{reply_arrives, reply_arrives_lem}

module _ (hash : Bytes → ℕ) (nid_text : ℕ → Bytes) (now later promise : ℕ) (c c' : Controller)
    (am : ActivationMessage) (code : Bytes) (out : Outgoing) (new_bytes : ℕ → Bytes)
    (allocates : (n : ℕ) → length (new_bytes n) ≡ n) (header_size : ℕ)
    (gather : ℕ → Bytes → Result Bytes) (num_cpus io mine front : ℕ)
    (channel channel' receiver : SeussChannel) (instance₀ status₀ : ℤ) (n : Node) (known : ℕ → Bool)
    (warm_id cold_id t₀ t₁ t₂ t₃ brace brace' : ℕ) (snap : Option ℕ) (ready reply : Bytes)
    (e : schedule_with_code hash nid_text now promise c am code ≡ ok (c', out))
    (v : IsQueued n.root) (idle : view n.root ≡ []) (free : has_capacity n.counters ≡ true)
    (booted : n.root.is_bootstrapped ≡ true)
    (no_instance : find (hash am.revision) n.hot.stalled_instance_map ≡ none)
    (no_snapshot : find (hash am.revision) n.root.snapmap ≡ none)
    (some_code : is_empty code ≡ false) (some_args : is_empty am.content ≡ false)
    (has_fid : hash am.revision ≢ 0) (has_id : cold_id ≢ 0) (is_known : known cold_id ≡ true)
    (at : find_first_of b'{' ready ≡ some brace)
    (good : status_line ready ≡ codes "HTTP/1.1 200 OK")
    (same : drop brace ready ≡ codes "{\"OK\":true}") (at' : find_first_of b'{' reply ≡ some brace')
    (good' : status_line reply ≡ codes "HTTP/1.1 200 OK") where
  -- The record that is sent with the reply.
  abbrev measured : InvocationStats
  measured = served_stats t₁ t₂ t₃ out.stats

  -- An activation is scheduled, on a node that has booted, has nothing queued, and neither an idle
  -- instance nor a snapshot of the function. The code and arguments of the activation are not
  -- empty, and its revision does not hash to 0. Its request is queued on the node. Poked, a core
  -- with capacity runs it, and if the new instance, which the manager knows by an id other than 0,
  -- accepts the connection, answers `200 OK` with `{"OK":true}`, answers `200 OK` with a result,
  -- and closes, then exactly one reply is sent. Whichever core sends it, it arrives at the front
  -- end, where it fulfils the promise of this very activation, with the activation's id, the text
  -- of the result and status 0, and the record of the activation is gone.
  pub trip_fulfils :
      (hot_es warm_es : List Event)
      → (root' : InvokerRoot) × (n' : Node) × (outs : List Output) × (cm : CompletionMessage)
        × (delivered hash nid_text now promise c c' am code out new_bytes allocates header_size
              gather num_cpus io channel n.root
            ≡ ok root')
        × (poke known num_cpus mine warm_id cold_id hot_es warm_es
              (served t₀ t₁ t₂ t₃ snap ready reply)
              (record n { root = root' })
            ≡ ok (runs (finished true, n', outs)))
        × (replies outs ≡ (measured, drop brace' reply) ∷ [])
        × (reply_arrives new_bytes header_size gather instance₀ status₀ later mine front channel'
              receiver c' measured
              (drop brace' reply)
            ≡ ok (record c' { record_map = c.record_map }, some (promise, cm)))
        × (cm.response.activation_id ≡ am.activation_id)
        × (cm.response.result ≡ drop brace' reply)
        × (cm.response.status_code ≡ pos 0)
  unfolding complete new_completion
  trip_fulfils hot_es warm_es =
      let i : Invocation = record { info = out.stats; code = code; args = am.content } in
      let (root', pokes, arrives, done, tid, fid) =
        delivered-add_work hash nid_text now promise c c' am code out new_bytes allocates
          header_size gather num_cpus io channel n.root e v
          (ap (has_tid (hash am.transid.name)) idle) in
      let (root, taken, rest, pokes_to) =
        poke_oldest known num_cpus mine warm_id cold_id hot_es warm_es
          (served t₀ t₁ t₂ t₃ snap ready reply) (record n { root = root' }) i []
          (add_work-IsQueued num_cpus io n.root i v done) free
          (add_work-view num_cpus io n.root root' i pokes v done ∙ ap (λ is. is ++ i ∷ []) idle) in
      let kept =
        get_work-caches root' root (some i) taken
        ∙ add_work-caches num_cpus io n.root root' i pokes done in
      let (outs, ran, sent, _) =
        cold_start_lem known num_cpus mine warm_id cold_id t₀ t₁ t₂ t₃ brace brace' snap ready reply
          i (record n { root = root }) at good same at' good' some_code some_args
          (λ z. has_fid (sym fid ∙ z)) has_id is_known hot_es warm_es
          (ap (λ f. find f n.hot.stalled_instance_map) fid ∙ no_instance)
          (ap (λ x. x.0) kept ∙ booted)
          (ap (λ f. find f root.snapmap) fid
            ∙ ap (λ x. find (hash am.revision) x.3) kept
            ∙ no_snapshot) in
      (
        root',
        _,
        outs,
        _,
        arrives,
        pokes_to ∙ ap (λ m. m >>= λ tried. ok (runs tried)) ran,
        sent,
        reply_arrives_lem new_bytes allocates header_size gather instance₀ status₀ later mine front
              channel' receiver c' measured (drop brace' reply)
            ∙ ap ok
                (resolve-schedule hash nid_text instance₀ status₀ now later later promise c c' am
                  code out (record measured { args_size = length (drop brace' reply) })
                  (drop brace' reply) [] e refl).0,
        refl,
        refl,
        refl,
      )
