-- ===== src/Flow.antt =====
-- An activation on its way: from `Controller::ScheduleActivation` over the channel into the work queue
-- of the node (src/SeussController.cc, src/SeussChannel.cc, `Invoker::Queue` of src/SeussInvoker.cc).

pub mod Back
pub mod Trip
pub mod Service
pub mod Load
mod Examples
mod ServiceRuns
use seuss.Prelude.{
  ℕ, ◌+◌, ◌≡◌, ◌≢◌, refl, ap, sym, ◌∙◌, subst, Bool, true, false, Option, none, some, inl, inr,
  List, [], ◌∷◌, ◌++◌, nat_eq, if◌then◌else◌, Bytes, length, Result, ok, panic, ◌>>=◌, ◌>>◌, arith,
  Option-cases,
}
use seuss.Table.{find, emplace_new, emplace_old}
use seuss.Invocation.{InvocationStats, Invocation}
use seuss.Root.Defs.{InvokerRoot, add_work}
use seuss.Root.Queue.{IsQueued, view, has_tid}
use seuss.Root.Queue.Calls.{add_work-view, add_work_fits}
use seuss.Channel.Defs.{
  native, SeussChannel, send_request, Received, nothing, queue, resolve, receive_message,
}
use seuss.Channel.RoundTrip.{receive_message-send_request}
use seuss.Openwhisk.Msg.{ActivationMessage}
use seuss.Controller.Defs.{Controller, Outgoing, new_stats, schedule_with_code, copy_activation_id}
use seuss.Controller.Records.{entry_of, schedule_sends}

-- `Invoker::Queue`, called by the channel of a native node for a request.
unfoldable pub queue_invocation : (num_cpus mine : ℕ) → InvokerRoot → Received → Result InvokerRoot
queue_invocation num_cpus mine root nothing = ok root
queue_invocation num_cpus mine root (queue i) = do
  (root', pokes) ← add_work num_cpus mine root i
  ok root'
queue_invocation num_cpus mine root (resolve istats res) = panic

module _ (hash : Bytes → ℕ) (nid_text : ℕ → Bytes) (now promise : ℕ) (c c' : Controller)
    (am : ActivationMessage) (code : Bytes) (out : Outgoing) (new_bytes : ℕ → Bytes)
    (allocates : (n : ℕ) → length (new_bytes n) ≡ n) (header_size : ℕ)
    (gather : ℕ → Bytes → Result Bytes) (num_cpus mine : ℕ) (channel : SeussChannel)
    (root : InvokerRoot) where
  -- The request of an activation, sent and received, and queued on the node.
  abbrev pub delivered : Result InvokerRoot
  delivered = do
    (channel', received) ← (do
      msg ← send_request new_bytes out.stats out.args out.code
      receive_message header_size gather native mine channel msg)
    queue_invocation num_cpus mine root received

  -- The request of an activation comes to one call of `AddWork`.
  pub delivered-add_work :
      schedule_with_code hash nid_text now promise c am code ≡ ok (c', out)
      → IsQueued root
      → has_tid (hash am.transid.name) (view root) ≡ false
      → (root' : InvokerRoot) × (pokes : List ℕ) × (delivered ≡ ok root')
        × (add_work num_cpus mine root (record { info = out.stats; code = code; args = am.content })
            ≡ ok (root', pokes))
        × (out.stats.transaction_id ≡ hash am.transid.name)
        × (out.stats.function_id ≡ hash am.revision)
  unfolding queue_invocation
  delivered-add_work e v new =
      let (args, same_code, size, tid, fid) =
        schedule_sends hash nid_text now promise c c' am code out e in
      let i : Invocation = record { info = out.stats; code = code; args = am.content } in
      let sent =
        receive_message-send_request new_bytes allocates header_size gather mine channel out.stats
          am.content code size in
      let (root', pokes, done) =
        add_work_fits num_cpus mine root i v (ap (λ t. has_tid t (view root)) tid ∙ new) in
      (root', pokes, rw (args, same_code, sent, done) refl, done, tid, fid)
