-- ===== src/Channel/Defs.antt =====
-- Messages, and how they are written and read. A message is its header, which is copied as a struct,
-- and the bytes behind it.
use seuss.Prelude.{
  ℕ, ◌+◌, ◌-◌, Bool, false, not, Option, none, some, [], ◌++◌, ◌==◌, nat_eq, ltb, leb,
  if◌then◌else◌, Bytes, length, take, drop, replicate, Result, ok, panic, ◌>>=◌, ◌>>◌, kassert,
}
use seuss.Invocation.{InvocationStats, Invocation}

pub data MsgType : Type 0 where
  ping request reply : MsgType

pub record MsgHeader : Type 0 where
  pub type : MsgType
  pub len : ℕ
  pub info : InvocationStats

-- An `IOBuf` with a header in front; a chained one has its bytes in several pieces.
pub record Message : Type 0 where
  pub header : MsgHeader
  pub payload : Bytes
  pub is_chained : Bool

-- The build: `__ebbrt__` is defined on the native node.
pub data Side : Type 0 where
  native hosted : Side

pub record SeussChannel : Type 0 where
  pub io_core : ℕ

-- `std::string::copy` to a place in a buffer; past its end the copy would overrun.
unfoldable pub copy_at : (source : Bytes) (offset : ℕ) → Bytes → Result Bytes
copy_at source offset buffer =
    if leb (offset + length source) (length buffer)
    then ok (take offset buffer ++ (source ++ drop (offset + length source) buffer))
    else panic

-- `n` bytes of a buffer from a place on; past its end the read would overrun.
unfoldable pub read_at : (offset n : ℕ) → Bytes → Result Bytes
read_at offset n buffer =
    if leb (offset + n) (length buffer) then ok (take n (drop offset buffer)) else panic

-- `Ping`: a zeroed header.
unfoldable pub ping_message : Message
ping_message = record {
  header = record {
    type = ping;
    len = 0;
    info = record {
      transaction_id = 0;
      function_id = 0;
      args_size = 0;
      activation_id = replicate 34 0;
      exec = record { run_time = 0; init_time = 0; status = false };
    };
  };
  payload = [];
  is_chained = false;
}

-- Whether a reply has to move to the IO core first: on a native node only.
unfoldable pub must_move : Side → (mine : ℕ) → SeussChannel → Bool
must_move native mine channel = not (mine == channel.io_core)
must_move hosted mine channel = false

-- The allocator: the bytes behind the header of a new buffer, which are not cleared.
module _ (new_bytes : ℕ → Bytes) where
  -- `SendRequest`: the message that goes out.
  unfoldable pub send_request : InvocationStats → (args code : Bytes) → Result Message
  send_request istats args code = do
    let buffer = new_bytes (length args + length code)
    with_args ← (if ltb 0 (length args) then copy_at args 0 buffer else ok buffer)
    let next = (if ltb 0 (length args) then length args else 0)
    with_code ← (if ltb 0 (length code) then copy_at code next with_args else ok with_args)
    ok (record {
      header = record { type = request; len = length args + length code; info = istats };
      payload = with_code;
      is_chained = false;
    })

  -- `SendReply` on the core `mine`: off the IO core of a native node the call moves there, and its
  -- message is `none`.
  unfoldable pub send_reply :
      Side → (mine : ℕ) → SeussChannel → InvocationStats → (args : Bytes) → Result (Option Message)
  send_reply side mine channel istats args = if must_move side mine channel then ok none else do
    let buffer = new_bytes (length args)
    with_args ← (if ltb 0 (length args) then copy_at args 0 buffer else ok buffer)
    ok (
        some (record {
          header = record {
            type = reply;
            len = length args;
            info = record istats { args_size = length args };
          };
          payload = with_args;
          is_chained = false;
        }))

-- What a message makes its receiver do.
pub data Received : Type 0 where
  nothing : Received
  queue : Invocation → Received
  resolve : InvocationStats → Bytes → Received

-- The arguments and the code in a payload, by the header.
unfoldable pub split_payload : MsgHeader → Bytes → Result (Bytes × Bytes)
split_payload hdr bytes = do
  kassert (leb hdr.info.args_size hdr.len)
  args ← (if hdr.info.args_size == 0 then ok [] else read_at 0 hdr.info.args_size bytes)
  code ←
      (if ltb hdr.info.args_size hdr.len
        then read_at hdr.info.args_size (hdr.len - hdr.info.args_size) bytes
        else ok [])
  ok (args, code)

-- The `switch` on the type of a message.
unfoldable pub dispatch : Side → MsgHeader → (args code : Bytes) → MsgType → Result Received
dispatch native hdr args code ping = ok nothing
dispatch native hdr args code request =
    ok (queue (record { info = hdr.info; code = code; args = args }))
dispatch native hdr args code reply = panic
dispatch hosted hdr args code ping = ok nothing
dispatch hosted hdr args code request = panic
dispatch hosted hdr args code reply = ok (resolve hdr.info args)

-- `gather n bytes` is `dp.Get(n, ...)`, the copy of `n` bytes out of a chained buffer of which `bytes`
-- are left; `header_size` is `sizeof(MsgHeader)`.
module _ (header_size : ℕ) (gather : ℕ → Bytes → Result Bytes) where
  -- `ReceiveMessage` on the core `mine`.
  unfoldable pub receive_message :
      Side → (mine : ℕ) → SeussChannel → Message → Result (SeussChannel × Received)
  unfolding split_payload dispatch
  receive_message side mine channel msg = do
    let hdr = msg.header
    let buf_len = header_size + length msg.payload
    (args, code) ←
        (if ltb 0 hdr.len
          then (do
            bytes ← (if msg.is_chained then gather buf_len msg.payload else ok msg.payload)
            split_payload hdr bytes)
          else ok ([], []))
    received ← dispatch side hdr args code hdr.type
    ok (record channel { io_core = mine }, received)
