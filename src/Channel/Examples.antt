-- ===== src/Channel/Examples.antt =====
-- Messages on small inputs.
use seuss.Prelude.{
  ℕ, ◌<◌, ◌≡◌, refl, true, false, [], Bytes, codes, length, take, replicate, length-replicate, leb,
  if◌then◌else◌, Result, ok, panic, arith,
}
use seuss.Invocation.{InvocationStats}
use seuss.Channel.Defs.{request, Message, native, SeussChannel, receive_message}
use seuss.Channel.Chained.{receive_message_chained}

-- An allocator that does not clear its buffers, and a copy that refuses to read past the end.
abbrev dirty : ℕ → Bytes
dirty n = replicate n 255

dirty_length : (n : ℕ) → length (dirty n) ≡ n
dirty_length n = length-replicate n 255

abbrev gather : ℕ → Bytes → Result Bytes
gather n bytes = if leb n (length bytes) then ok (take n bytes) else panic

abbrev io : SeussChannel
io = record { io_core = 0 }

abbrev stats : InvocationStats
stats = record {
  transaction_id = 7;
  function_id = 1;
  args_size = 2;
  activation_id = [];
  exec = record { run_time = 0; init_time = 0; status = false };
}

abbrev pieces : Message
pieces = record {
  header = record { type = request; len = 2; info = stats };
  payload = codes "{}";
  is_chained = true;
}

gather_refuses : (n : ℕ) (bytes : Bytes) → length bytes < n → gather n bytes ≡ panic
gather_refuses n bytes h = ground arith

receive_message_chained_example : receive_message 80 gather native 0 io pieces ≡ panic
receive_message_chained_example =
    receive_message_chained 80 gather (omega arith) gather_refuses native 0 io pieces refl
      (omega arith)
