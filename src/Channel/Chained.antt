-- ===== src/Channel/Chained.antt =====
-- A message that arrives in several pieces.
use seuss.Prelude.{ℕ, ◌+◌, ◌<◌, ◌≡◌, true, Bytes, length, Result, panic, arith}
use seuss.Channel.Defs.{Message, Side, SeussChannel, receive_message}

-- `ReceiveMessage` asks for as many bytes as the whole buffer has, after it has taken the header out:
-- where a read past the end of a buffer stops the machine, every chained message with a payload stops
-- the machine, whatever it holds.
pub receive_message_chained :
    (header_size : ℕ) (gather : ℕ → Bytes → Result Bytes)
    → 0 < header_size
    → ((n : ℕ) (bytes : Bytes) → length bytes < n → gather n bytes ≡ panic)
    → (side : Side) (mine : ℕ) (channel : SeussChannel) (msg : Message) → msg.is_chained ≡ true
    → 0 < msg.header.len
    → receive_message header_size gather side mine channel msg ≡ panic
unfolding receive_message
receive_message_chained header_size gather pos refuses side mine channel msg chained some_bytes =
    ground (arith, refuses (header_size + length msg.payload) msg.payload)
