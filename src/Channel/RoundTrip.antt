-- ===== src/Channel/RoundTrip.antt =====
-- What is sent is what is received.
use seuss.Prelude.{
  empty_of_length, ℕ, ◌+◌, ◌-◌, ◌≤◌, ◌≡◌, refl, ap, sym, subst, false, some, [], ◌∷◌, ◌++◌, nat_eq,
  ltb, if◌then◌else◌, Bytes, length, drop, Result, ok, ◌>>=◌, arith, length-append,
  take-append_self, drop-append_self, take-length, append-nil, take-append-drop, length-drop,
  drop_all,
}
use seuss.Invocation.{InvocationStats}
use seuss.Channel.Defs.{
  request, reply, MsgHeader, Message, Side, native, hosted, SeussChannel, copy_at, read_at,
  must_move, send_request, send_reply, queue, resolve, split_payload, dispatch, receive_message,
}

read_at_first : (xs ys : Bytes) → read_at 0 (length xs) (xs ++ ys) ≡ ok xs
unfolding read_at
read_at_first xs ys = ground (arith, length-append xs ys, take-append_self xs ys)

read_at_rest : (xs ys : Bytes) → read_at (length xs) (length ys) (xs ++ ys) ≡ ok ys
unfolding read_at
read_at_rest xs ys = ground (arith, length-append xs ys, drop-append_self xs ys, take-length ys)

copy_at_empty :
    (offset : ℕ) (buffer : Bytes) → offset ≤ length buffer → copy_at [] offset buffer ≡ ok buffer
unfolding copy_at
copy_at_empty offset buffer h =
    let same : (offset + 0 ≡ offset) = omega arith in
    ground (arith, take-append-drop offset buffer, ap (λ (n : ℕ). drop n buffer) same)

-- The code copies a text only if it is not empty, which makes no difference.
copy_if :
    (source : Bytes) (offset : ℕ) (buffer : Bytes)
    → offset ≤ length buffer
    → (if ltb 0 (length source) then copy_at source offset buffer else ok buffer)
      ≡ copy_at source offset buffer
copy_if [] offset buffer h = sym (copy_at_empty offset buffer h)
copy_if (b ∷ bs) offset buffer h = ground arith

copy_at_first :
    (args buffer : Bytes)
    → length args ≤ length buffer
    → copy_at args 0 buffer ≡ ok (args ++ drop (length args) buffer)
unfolding copy_at
copy_at_first args buffer h = ground arith

copy_at_whole :
    (args buffer : Bytes)
    → length buffer ≡ length args
    → (if ltb 0 (length args) then copy_at args 0 buffer else ok buffer) ≡ ok args
copy_at_whole args buffer h = ground (
  arith,
  copy_if args 0 buffer,
  copy_at_first args buffer,
  drop_all (length args) buffer,
  append-nil args,
)

copy_at_rest :
    (args code tail : Bytes)
    → length code ≡ length tail
    → copy_at code (length args) (args ++ tail) ≡ ok (args ++ code)
unfolding copy_at
copy_at_rest args code tail h = ground (
  arith,
  length-append args tail,
  take-append_self args tail,
  drop_all (length args + length code) (args ++ tail),
  append-nil code,
)

module _ (new_bytes : ℕ → Bytes) (allocates : (n : ℕ) → length (new_bytes n) ≡ n) where
  send_request_lem :
      (istats : InvocationStats) (args code : Bytes)
      → send_request new_bytes istats args code
        ≡ ok (record {
          header = record { type = request; len = length args + length code; info = istats };
          payload = args ++ code;
          is_chained = false;
        })
  unfolding send_request
  send_request_lem istats args code =
      let size = allocates (length args + length code) in
      let buffer = new_bytes (length args + length code) in
      let tail = drop (length args) buffer in
      ground (
        arith,
        size,
        copy_if args 0 buffer,
        copy_at_first args buffer,
        length-drop (length args) buffer,
        length-append args tail,
        copy_if code (length args) (args ++ tail),
        copy_at_rest args code tail,
      )

module _ (new_bytes : ℕ → Bytes) (allocates : (n : ℕ) → length (new_bytes n) ≡ n) (header_size : ℕ)
    (gather : ℕ → Bytes → Result Bytes) (mine : ℕ) (channel : SeussChannel) where
  split_payload_lem :
      (hdr : MsgHeader) (args code : Bytes)
      → hdr.info.args_size ≡ length args
      → hdr.len ≡ length args + length code
      → split_payload hdr (args ++ code) ≡ ok (args, code)
  unfolding split_payload
  split_payload_lem hdr args code e l =
      let size : (hdr.len - hdr.info.args_size ≡ length code) = omega arith in
      let first : (read_at 0 hdr.info.args_size (args ++ code) ≡ ok args) =
        rw e (read_at_first args code) in
      let second : (read_at hdr.info.args_size (hdr.len - hdr.info.args_size) (args ++ code)
          ≡ ok code) =
        rw (size, e) (read_at_rest args code) in
      ground (arith, first, second, empty_of_length args, empty_of_length code)

  payload_lem :
      (hdr : MsgHeader) (args code : Bytes)
      → hdr.info.args_size ≡ length args
      → hdr.len ≡ length args + length code
      → (if ltb 0 hdr.len then split_payload hdr (args ++ code) else ok ([], [])) ≡ ok (args, code)
  payload_lem hdr args code e l =
      ground
        (arith, split_payload_lem hdr args code e l, empty_of_length args, empty_of_length code)

  receive_lem :
      (side : Side) (hdr : MsgHeader) (args code : Bytes)
      → hdr.info.args_size ≡ length args
      → hdr.len ≡ length args + length code
      → receive_message header_size gather side mine channel
          (record { header = hdr; payload = args ++ code; is_chained = false })
        ≡ (dispatch side hdr args code hdr.type >>= λ r. ok (record channel { io_core = mine }, r))
  unfolding receive_message
  receive_lem side hdr args code e l = rw (payload_lem hdr args code e l)

  -- A request whose record has the size of its arguments: the node takes up exactly this record, these
  -- arguments and this code, and remembers the core that it came in on as its IO core.
  pub receive_message-send_request :
      (istats : InvocationStats) (args code : Bytes)
      → istats.args_size ≡ length args
      → (send_request new_bytes istats args code
          >>= receive_message header_size gather native mine channel)
        ≡ ok (
          record channel { io_core = mine },
          queue (record { info = istats; code = code; args = args }),
        )
  unfolding receive_message
  receive_message-send_request istats args code e =
      rw (send_request_lem new_bytes allocates istats args code) (
        receive_lem native
          (record { type = request; len = length args + length code; info = istats }) args code e
          refl)

  -- A reply that is sent: the front end resolves the record with this text, its size filled in.
  pub receive_message-send_reply :
      (side : Side) (core : ℕ) (sender : SeussChannel) (istats : InvocationStats) (args : Bytes)
      → must_move side core sender ≡ false
      → (msg : Message) × (send_reply new_bytes side core sender istats args ≡ ok (some msg))
        × (receive_message header_size gather hosted mine channel msg
            ≡ ok (
              record channel { io_core = mine },
              resolve (record istats { args_size = length args }) args,
            ))
  unfolding send_reply dispatch
  receive_message-send_reply side core sender istats args here =
      let info = record istats { args_size = length args } in
      let hdr : MsgHeader = record { type = reply; len = length args; info = info } in
      let msg : Message = record { header = hdr; payload = args; is_chained = false } in
      let whole = ap (λ (p : Bytes). record msg { payload = p }) (append-nil args) in
      (
        msg,
        ground (arith, copy_at_whole args (new_bytes (length args)), allocates (length args)),
        subst
            (λ (m : Message).
              receive_message header_size gather hosted mine channel m
              ≡ ok (record channel { io_core = mine }, resolve info args))
            whole (receive_lem hosted hdr args [] refl (omega arith)),
      )
