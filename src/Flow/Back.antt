-- ===== src/Flow/Back.antt =====
-- A reply on its way back: `Invoker::Resolve`, `SeussChannel::SendReply` with its move to the IO core, and
-- `SeussChannel::ReceiveMessage` on the front end (src/SeussInvoker.cc, src/SeussChannel.cc).
use seuss.Prelude.{
  ℕ, ◌≡◌, refl, ap, true, false, Option, none, some, inl, inr, nat_eq, Bytes, bytes_eq, length,
  Result, ok, panic, ◌>>=◌, arith, expect, Bool-cases,
}
use seuss.Prelude.Int.{ℤ}
use seuss.Invocation.{InvocationStats}
use seuss.Channel.Defs.{
  native, hosted, SeussChannel, Message, must_move, send_reply, Received, nothing, queue, resolve,
  receive_message,
}
use seuss.Channel.RoundTrip.{receive_message-send_reply}
use seuss.Openwhisk.Msg.{CompletionMessage}
use seuss.Controller.Defs.{Controller, resolve_activation}

-- `Invoker::Resolve` on the core `mine`: the reply, which moves to the IO core first where it must.
module _ (new_bytes : ℕ → Bytes) where
  unfoldable pub or_moved :
      Option Message → SeussChannel → InvocationStats → (ret : Bytes) → Result Message
  or_moved (some msg) channel istats ret = ok msg
  or_moved none channel istats ret = do
    sent ← send_reply new_bytes native channel.io_core channel istats ret
    expect sent

  unfoldable pub resolve_reply :
      (mine : ℕ) → SeussChannel → InvocationStats → (ret : Bytes) → Result Message
  unfolding or_moved
  resolve_reply mine channel istats ret = do
    sent ← send_reply new_bytes native mine channel istats ret
    or_moved sent channel istats ret

-- What the front end makes of what it receives.
unfoldable pub resolve_received :
    (instance₀ status₀ : ℤ) (now : ℕ)
    → Controller
    → Received
    → Result (Controller × Option (ℕ × CompletionMessage))
resolve_received instance₀ status₀ now c nothing = ok (c, none)
resolve_received instance₀ status₀ now c (queue i) = panic
resolve_received instance₀ status₀ now c (resolve istats res) =
    ok (resolve_activation instance₀ status₀ now c istats res)

-- A reply, from the node to the front end.
unfoldable pub reply_arrives :
    (new_bytes : ℕ → Bytes) (header_size : ℕ) (gather : ℕ → Bytes → Result Bytes)
    (instance₀ status₀ : ℤ) (now core mine : ℕ) (sender receiver : SeussChannel)
    → Controller
    → InvocationStats
    → Bytes
    → Result (Controller × Option (ℕ × CompletionMessage))
unfolding resolve_reply resolve_received
reply_arrives new_bytes header_size gather instance₀ status₀ now core mine sender receiver c istats
      ret =
    do
      (receiver', received) ← (do
        msg ← resolve_reply new_bytes core sender istats ret
        receive_message header_size gather hosted mine receiver msg)
      resolve_received instance₀ status₀ now c received

-- A reply that must move to the IO core first.
moved :
    (new_bytes : ℕ → Bytes) (core : ℕ) (sender : SeussChannel) (istats : InvocationStats)
    (ret : Bytes)
    → must_move native core sender ≡ true
    → send_reply new_bytes native core sender istats ret ≡ ok none
unfolding send_reply
moved new_bytes core sender istats ret away = rw away refl

at_io_core : (sender : SeussChannel) → must_move native sender.io_core sender ≡ false
unfolding must_move
at_io_core sender = ground arith

module _ (new_bytes : ℕ → Bytes) (allocates : (n : ℕ) → length (new_bytes n) ≡ n) (header_size : ℕ)
    (gather : ℕ → Bytes → Result Bytes) (instance₀ status₀ : ℤ) (now core mine : ℕ)
    (sender receiver : SeussChannel) where
  -- Whichever core sends it, a reply is received as it was sent, its size filled in.
  pub resolve_reply_received :
      (istats : InvocationStats) (ret : Bytes)
      → (resolve_reply new_bytes core sender istats ret
          >>= receive_message header_size gather hosted mine receiver)
        ≡ ok (
          record receiver { io_core = mine },
          resolve (record istats { args_size = length ret }) ret,
        )
  unfolding resolve_reply or_moved
  resolve_reply_received istats ret = elim (Bool-cases (must_move native core sender)) [
    | inl away ↦
        let (msg, sent, received) =
          receive_message-send_reply new_bytes allocates header_size gather mine receiver native
            sender.io_core sender istats ret (at_io_core sender) in
        rw (moved new_bytes core sender istats ret away, sent, received) refl
    | inr here ↦
        let (msg, sent, received) =
          receive_message-send_reply new_bytes allocates header_size gather mine receiver native
            core sender istats ret here in
        rw (sent, received) refl
  ]

  pub reply_arrives_lem :
      (c : Controller) (istats : InvocationStats) (ret : Bytes)
      → reply_arrives new_bytes header_size gather instance₀ status₀ now core mine sender receiver c
          istats ret
        ≡ ok (
            resolve_activation instance₀ status₀ now c
              (record istats { args_size = length ret })
              ret)
  unfolding reply_arrives resolve_received
  reply_arrives_lem c istats ret =
      ap (λ m. m >>= λ r. resolve_received instance₀ status₀ now c r.1)
        (resolve_reply_received istats ret)
