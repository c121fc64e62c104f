-- ===== src/Invoker/Callbacks.antt =====
-- What becomes of an instance and of a reply at the end of an attempt.
use seuss.Prelude.{
  ℕ, ◌≡◌, ◌≢◌, append_assoc, Bool, true, false, some, List, [], ◌∷◌, ◌++◌, Bytes, codes, drop,
  find_first_of, Bool-cases, inl, inr, if◌then◌else◌, Result, ok, ◌>>=◌, arith,
}
use seuss.Invocation.{InvocationStats}
use seuss.Hot.Defs.{HotCache, set_inactive, signal_yield}
use seuss.Hot.Invariant.{can_save, saved, save_hot_instance_lem}
use seuss.Session.Defs.{
  InvocationSession, set_value, disconnect, aborted, executed, Promise, disable_timer, finish,
  get_runtime, receive, status_line,
}
use seuss.Session.Replies.{receive_failed}
use seuss.Invoker.Defs.{
  Attempt, Output, signal, spawn_halt, reply_with, all_did, After, when_closed, when_aborted,
  when_executed, callback,
}

-- The session and the calls of `Finish`.
abbrev pub finished : Bool → Attempt → Attempt
finished status a = record a { session = (finish status a.session).0 }

abbrev pub finish_calls : Bool → Attempt → List Output
finish_calls status a = all_did (finish status a.session).1

-- When the connection of an attempt closes, the invocation has succeeded, and its instance is either
-- kept for hot starts and told to yield, or halted: never both, and never neither. The instance is one
-- that the manager knows.
pub when_closed_lem :
    (known : ℕ → Bool) (a : Attempt) (hot : HotCache)
    → a.fid ≢ 0
    → a.umi_id ≢ 0
    → known a.umi_id ≡ true
    → when_closed known a hot
      ≡ ok (
          if can_save hot a.fid a.umi_id
          then (
            finished true a,
            saved hot a.fid a.umi_id,
            finish_calls true a
                ++ signal (set_inactive a.umi_id) ∷ signal (signal_yield a.umi_id) ∷ [],
          )
          else (finished true a, hot, finish_calls true a ++ spawn_halt a.umi_id ∷ []))
unfolding when_closed
when_closed_lem known a hot f i k = elim (Bool-cases (can_save hot a.fid a.umi_id)) [
  | inl fits ↦ ground (arith, save_hot_instance_lem known hot a.fid a.umi_id f i k)
  | inr not_fits ↦ ground (arith, save_hot_instance_lem known hot a.fid a.umi_id f i k)
]

-- The callbacks of two promises, one after the other.
abbrev pub both :
    (known : ℕ → Bool) (now : ℕ) → Promise → Promise → Attempt → HotCache → Result After
both known now p q a hot = do
  (a₁, hot₁, first) ← callback known now p a hot
  (a₂, hot₂, second) ← callback known now q a₁ hot₁
  ok (a₂, hot₂, first ++ second)

-- The statistics of a completed run: the status of a success, and the run time so far.
abbrev pub succeeded : ℕ → InvocationSession → InvocationStats → InvocationStats
succeeded now s istats = record istats {
  exec = record istats.exec { status = false; run_time = get_runtime now s };
}

abbrev pub with_reply : Bytes → InvocationSession → InvocationSession
with_reply response s = record s { reply = response }

-- An attempt that has failed with a response, its halted instance, and the reply that went out.
abbrev pub failed_after : ℕ → Bytes → Attempt → HotCache → After
failed_after now response a hot =
    let s = with_reply response a.session in
    (
      record a { session = (finish false s).0; istats = succeeded now s a.istats },
      hot,
      all_did (finish false s).1
          ++ spawn_halt a.umi_id ∷ reply_with (succeeded now s a.istats) response ∷ [],
    )

-- A run that the instance answers with a failure: the attempt is finished as failed and its instance
-- is halted, and yet the response goes out as the reply of the invocation, with the status of a
-- success.
pub failed_reply :
    (known : ℕ → Bool) (now brace : ℕ) (reply : Bytes) (a : Attempt) (hot : HotCache)
    → find_first_of b'{' reply ≡ some brace
    → status_line reply ≢ codes "HTTP/1.1 200 OK"
    → drop brace reply ≢ codes "{\"OK\":true}"
    → (receive false reply a.session
        ≡ ok (
          with_reply (drop brace reply) a.session,
          set_value aborted ∷ disconnect ∷ set_value executed ∷ [],
        ))
      × (both known now aborted executed
            (record a { session = with_reply (drop brace reply) a.session })
            hot
          ≡ ok (failed_after now (drop brace reply) a hot))
unfolding callback when_aborted when_executed finish disable_timer get_runtime
failed_reply known now brace reply a hot at bad other =
    (receive_failed reply brace a.session at bad other, simp append_assoc)
