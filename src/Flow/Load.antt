-- ===== src/Flow/Load.antt =====
-- A request that comes to a node under load: `SeussChannel::ReceiveMessage`, `Invoker::Queue`, and the events
-- of the cores after that (src/SeussChannel.cc, src/SeussInvoker.cc).
use seuss.Prelude.{
  ℕ, ◌<◌, ◌≡◌, refl, ap, ◌∙◌, false, List, [], ◌∷◌, ◌++◌, Bytes, length, Result, ok, panic, ◌>>=◌,
}
use seuss.Invocation.{Invocation}
use seuss.Root.Defs.{InvokerRoot}
use seuss.Root.Queue.{IsQueued, view, has_tid}
use seuss.Root.Queue.Calls.{add_work-view, add_work_fits}
use seuss.Channel.Defs.{
  native, SeussChannel, send_request, Received, nothing, queue, resolve, receive_message,
}
use seuss.Channel.RoundTrip.{receive_message-send_request}
use seuss.Openwhisk.Msg.{ActivationMessage}
use seuss.Controller.Defs.{Controller, Outgoing, schedule_with_code}
use seuss.Cores.Defs.{Machine, arrive, Works, Reach, arrives}
use seuss.Cores.Alive.{Reach-IsAlive}
use seuss.Cores.Drain.{comes_to_rest}
use seuss.Controller.Records.{schedule_sends}

-- What a node makes of what its core `mine` receives.
unfoldable pub received_on : (num_cpus mine : ℕ) → Received → Machine → Result Machine
received_on num_cpus mine nothing m = ok m
received_on num_cpus mine (queue i) m = arrive num_cpus mine i m
received_on num_cpus mine (resolve istats res) m = panic

module _ (hash : Bytes → ℕ) (nid_text : ℕ → Bytes) (now promise : ℕ) (c c' : Controller)
    (am : ActivationMessage) (code : Bytes) (out : Outgoing) (new_bytes : ℕ → Bytes)
    (allocates : (n : ℕ) → length (new_bytes n) ≡ n) (header_size : ℕ)
    (gather : ℕ → Bytes → Result Bytes) (num_cpus limit mine : ℕ) (channel : SeussChannel)
    (root : InvokerRoot) where
  -- The request, from the front end to the node.
  unfoldable pub requested : Machine → Result Machine
  unfolding received_on
  requested m = do
    (channel', received) ← (do
      msg ← send_request new_bytes out.stats out.args out.code
      receive_message header_size gather native mine channel msg)
    received_on num_cpus mine received m

  -- What the node makes of the request.
  abbrev pub invocation : Invocation
  invocation = record { info = out.stats; code = code; args = am.content }

  requested-arrive :
      (m : Machine)
      → schedule_with_code hash nid_text now promise c am code ≡ ok (c', out)
      → requested m ≡ arrive num_cpus mine invocation m
  unfolding requested received_on
  requested-arrive m e =
      let (args, same_code, size, tid, fid) =
        schedule_sends hash nid_text now promise c c' am code out e in
      rw
        (
          args,
          same_code,
          receive_message-send_request new_bytes allocates header_size gather mine channel out.stats
              am.content code size,
        )
        refl

  -- An activation is scheduled, and its request is sent to a node, to any core of it, in any state that the
  -- node can be in, except that no invocation of the same transaction is still queued. The node has more
  -- than one core, they may run something, and its work queue was empty at its start. Then the request is
  -- taken in, and by some events of its cores the node comes to rest. These start exactly what was
  -- queued, in its order, and last the invocation of this very activation.
  pub scheduled_starts :
      {m : Machine}
      → schedule_with_code hash nid_text now promise c am code ≡ ok (c', out)
      → 1 < num_cpus
      → 0 < limit
      → mine < num_cpus
      → IsQueued root
      → view root ≡ []
      → Reach num_cpus limit root m
      → has_tid (hash am.transid.name) (view m.root) ≡ false
      → (m₁ : Machine) × (n : ℕ) × (is : List Invocation) × (m' : Machine) × (requested m ≡ ok m₁)
        × Works m₁ n is m'
        × (m'.pokes ≡ [])
        × (m'.running ≡ [])
        × (is ≡ view m.root ++ invocation ∷ [])
  unfolding arrive
  scheduled_starts {m} e several some_limit here queued empty r new =
      let (args, same_code, size, tid, fid) =
        schedule_sends hash nid_text now promise c c' am code out e in
      let i = invocation in
      let v = (Reach-IsAlive several some_limit queued empty r).0.queued in
      let (root', pokes, done) =
        add_work_fits num_cpus mine m.root i v (ap (λ t. has_tid t (view m.root)) tid ∙ new) in
      let m₁ = record m { root = root'; pokes = m.pokes ++ pokes } in
      let taken : arrive num_cpus mine i m ≡ ok m₁ = rw done refl in
      let (n, is, m', works, no_poke, none_runs, all) =
        comes_to_rest several some_limit queued empty (arrives mine i m₁ r here taken) in
      (
        m₁,
        n,
        is,
        m',
        requested-arrive m e ∙ taken,
        works,
        no_poke,
        none_runs,
        all ∙ add_work-view num_cpus mine m.root root' i pokes v done,
      )
