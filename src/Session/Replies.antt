-- ===== src/Session/Replies.antt =====
-- What `Receive` makes of a reply.
use seuss.Prelude.{
  ℕ, ◌≡◌, ◌≢◌, refl, ap, ◌∙◌, beq_ne, Bool, true, false, not, ◌&&◌, some, [], ◌∷◌, arith, ◌==◌,
  bytes_eq, bytes_beq_iff, if◌then◌else◌, Bytes, codes, drop, find_first_of, inl, inr, Option-cases,
  ok,
}
use seuss.Session.Defs.{
  InvocationSession, set_value, disconnect, aborted, executed, initialized, Effect, receive_status,
  receive_response, process_reply, receive, status_line,
}

-- A reply that is handled has a brace, and what follows depends on its status line and on the text
-- from the brace on.
pub receive-process_reply :
    (chained : Bool) (reply : Bytes) (s : InvocationSession) {x : Effect}
    → receive chained reply s ≡ ok x
    → (brace : ℕ) × (find_first_of b'{' reply ≡ some brace)
      × (x ≡ process_reply (status_line reply) (drop brace reply) s)
unfolding receive
receive-process_reply true reply s e = cc
receive-process_reply false reply s e = elim (Option-cases (find_first_of b'{' reply)) [
  | inl missing ↦ ground arith
  | inr (brace, at) ↦ (brace, at, ground arith)
]

abbrev status_ok : Bytes
status_ok = codes "HTTP/1.1 200 OK"

abbrev setup_done : Bytes
setup_done = codes "{\"OK\":true}"

receive_found :
    (reply : Bytes) (brace : ℕ) (s : InvocationSession)
    → find_first_of b'{' reply ≡ some brace
    → receive false reply s ≡ ok (process_reply (status_line reply) (drop brace reply) s)
unfolding receive
receive_found reply brace s at = rw at

module _ (http_status response : Bytes) (s : InvocationSession) where
  process_failed :
      http_status ≢ status_ok
      → response ≢ setup_done
      → process_reply http_status response s
        ≡ (record s { reply = response }, set_value aborted ∷ disconnect ∷ set_value executed ∷ [])
  unfolding process_reply receive_status receive_response
  process_failed bad other =
      let no_status = beq_ne http_status status_ok bad in
      let no_setup = beq_ne response setup_done other in rw (no_status, no_setup) refl

  process_ok :
      http_status ≡ status_ok
      → process_reply http_status response s ≡ (
          if response == setup_done && not s.is_initialized
          then (record s { is_initialized = true }, set_value initialized ∷ [])
          else (record s { reply = response }, set_value executed ∷ []))
  unfolding process_reply receive_status receive_response
  process_ok good = let same = (bytes_beq_iff http_status status_ok).1 good in ground arith

-- A reply that is not `200 OK` and not the answer to an initialisation: the session announces its
-- abort and disconnects, and then it also announces a completed run with this reply, since `Receive`
-- goes on after a failed request.
pub receive_failed :
    (reply : Bytes) (brace : ℕ) (s : InvocationSession)
    → find_first_of b'{' reply ≡ some brace
    → status_line reply ≢ codes "HTTP/1.1 200 OK"
    → drop brace reply ≢ codes "{\"OK\":true}"
    → receive false reply s
      ≡ ok (
        record s { reply = drop brace reply },
        set_value aborted ∷ disconnect ∷ set_value executed ∷ [],
      )
receive_failed reply brace s at bad other =
    receive_found reply brace s at
    ∙ ap ok (process_failed (status_line reply) (drop brace reply) s bad other)

-- A reply `200 OK`: the first `{"OK":true}` completes the initialisation, and any other response, or
-- a second such, is kept as the reply of a completed run.
pub receive_ok :
    (reply : Bytes) (brace : ℕ) (s : InvocationSession)
    → find_first_of b'{' reply ≡ some brace
    → status_line reply ≡ codes "HTTP/1.1 200 OK"
    → receive false reply s
      ≡ ok (
          if drop brace reply == codes "{\"OK\":true}" && not s.is_initialized
          then (record s { is_initialized = true }, set_value initialized ∷ [])
          else (record s { reply = drop brace reply }, set_value executed ∷ []))
receive_ok reply brace s at good =
    receive_found reply brace s at
    ∙ ap ok (process_ok (status_line reply) (drop brace reply) s good)
