-- ===== src/Kafka/Loops.antt =====
-- src/openwhisk/kafka.cc: the two loops from their start, on what `init` has left.
use seuss.Prelude.{
  ℕ, zero, suc, ◌≡◌, refl, Bool, not, true, false, Option, none, some, List, [], ◌++◌, Bytes,
  is_empty, if◌then◌else◌, Result, ok, ◌>>=◌, >>=-assoc, >>=-eq-ok, ok-injective, Bool-cases, inl,
  inr, subst, arith,
}
use seuss.Kafka.Defs.{
  Kafka, init, default_topic, Output, heartbeat, FrontEnd, Turn, Environment, run,
}
use seuss.Kafka.Texts.{AreTexts, all_plain, append-AreTexts, heartbeat-AreTexts}
use seuss.Kafka.Documents.{AreFit, run-AreTexts}

-- The beats so far.
abbrev pub beats : (turns : ℕ) → Kafka → List Output
beats zero k = []
beats (suc turns) k = heartbeat k ++ beats turns k

-- `ping_producer_loop`, with the number of its turns so far. It prints an error where no broker is known.
unfoldable pub ping_producer_loop : (turns : ℕ) → Kafka → List Output
ping_producer_loop turns k = if is_empty k.kafka_broker then [] else beats turns k

init_lem :
    (kafka_brokers : Option Bytes) (kafka_topic invoker_delay : Option ℕ) (k k' : Kafka) (b : Bool)
    (topic : Option Bytes)
    → init kafka_brokers kafka_topic invoker_delay k ≡ (b, k', topic)
    → (is_empty k'.kafka_broker ≡ not b) × (topic ≡ (if b then some (default_topic k') else none))
unfolding init
init_lem kafka_brokers kafka_topic invoker_delay k k' b topic e = ground (arith, e)

module _ (env : Environment) where
  -- `activation_consumer_loop`, with the turns so far: the topic it has subscribed to, if any, and what
  -- the turns lead to.
  unfoldable pub activation_consumer_loop :
      Kafka → List Turn → FrontEnd → Result (Option Bytes × FrontEnd × List Output)
  activation_consumer_loop k turns s =
      if is_empty k.kafka_broker
      then ok (none, s, [])
      else do (s', outs) ← run env k turns s; ok (some (default_topic k), s', outs)

  -- `connect`: both loops are started, each on a core of its own.
  unfoldable pub connect :
      Kafka
      → (rounds : ℕ) → List Turn
      → FrontEnd
      → Result (List Output × Option Bytes × FrontEnd × List Output)
  unfolding activation_consumer_loop ping_producer_loop
  connect k rounds turns s = do
    (topic, s', outs) ← activation_consumer_loop k turns s
    ok (ping_producer_loop rounds k, topic, s', outs)

  -- What `init` makes of the client decides what its loops do. Where it succeeds, the heartbeat beats in each turn, and
  -- the consumer subscribes to the very topic that `init` has made sure of and takes the turns. Where it fails,
  -- neither loop does anything, whatever a poll would give.
  connect-init :
      (kafka_brokers : Option Bytes) (kafka_topic invoker_delay : Option ℕ) (k k' : Kafka)
      (b : Bool) (topic : Option Bytes) (turns : ℕ) (ts : List Turn) (s : FrontEnd)
      → init kafka_brokers kafka_topic invoker_delay k ≡ (b, k', topic)
      → connect k' turns ts s ≡ (
          if b
          then run env k' ts s >>= (λ r. ok (beats turns k', topic, r.0, r.1))
          else ok ([], none, s, []))
  unfolding connect activation_consumer_loop ping_producer_loop
  connect-init kafka_brokers kafka_topic invoker_delay k k' true topic turns ts s e =
      let (broker, known) = init_lem kafka_brokers kafka_topic invoker_delay k k' true topic e in
      rw (broker, known) (>>=-assoc (run env k' ts s) _ _)
  connect-init kafka_brokers kafka_topic invoker_delay k k' false topic turns ts s e =
      let (broker, known) = init_lem kafka_brokers kafka_topic invoker_delay k k' false topic e in
      rw broker refl

  beats-AreTexts : (turns : ℕ) (k : Kafka) → AreTexts (beats turns k)
  beats-AreTexts zero k = tt
  beats-AreTexts (suc turns) k =
      append-AreTexts (heartbeat k) (beats turns k) (heartbeat-AreTexts k) (beats-AreTexts turns k)

  ping_producer_loop-AreTexts : (turns : ℕ) (k : Kafka) → AreTexts (ping_producer_loop turns k)
  unfolding ping_producer_loop
  ping_producer_loop-AreTexts turns k = elim (Bool-cases (is_empty k.kafka_broker)) [
    | inl none_known ↦ rw none_known tt
    | inr known ↦ rw known (beats-AreTexts turns k)
  ]

  activation_consumer_loop-AreTexts :
      (k : Kafka) (ts : List Turn) (s s' : FrontEnd) (topic : Option Bytes) (outs : List Output)
      → all_plain s.controller.record_map ≡ true
      → AreFit env k ts
      → activation_consumer_loop k ts s ≡ ok (topic, s', outs)
      → AreTexts outs
  unfolding activation_consumer_loop
  activation_consumer_loop-AreTexts k ts s s' topic outs plain fit e =
      elim (Bool-cases (is_empty k.kafka_broker)) [
        | inl none_known ↦
            subst (λ (r : Option Bytes × FrontEnd × List Output). AreTexts r.2)
              (ok-injective (rw none_known at e)) tt
        | inr known ↦
            let ((s₁, sent), taken, ends) = >>=-eq-ok (run env k ts s) _ (rw known at e) in
            subst (λ (r : Option Bytes × FrontEnd × List Output). AreTexts r.2) (ok-injective ends)
              (run-AreTexts env k ts s s₁ sent plain fit taken)
      ]

  -- Whatever the broker gives and whatever the nodes reply, in any order: while both loops of the client run, all
  -- that they give to OpenWhisk, the heartbeats and the completions, are texts of JSON, with its blanks, fractions
  -- and escapes. The results that come in are texts of JSON, and the names of the activations, of those too that
  -- wait at first, can stand between the quotes of a JSON string as they are.
  pub connect-AreTexts :
      (k : Kafka) (rounds : ℕ) (ts : List Turn) (s s' : FrontEnd) (topic : Option Bytes)
      (beaten outs : List Output)
      → all_plain s.controller.record_map ≡ true
      → AreFit env k ts
      → connect k rounds ts s ≡ ok (beaten, topic, s', outs)
      → AreTexts beaten × AreTexts outs
  unfolding connect
  connect-AreTexts k rounds ts s s' topic beaten outs plain fit e =
      let ((topic₁, s₁, sent), consumed, ends) = >>=-eq-ok (activation_consumer_loop k ts s) _ e in
      subst
        (λ (r : List Output × Option Bytes × FrontEnd × List Output). AreTexts r.0 × AreTexts r.3)
        (ok-injective ends)
        (
          ping_producer_loop-AreTexts rounds k,
          activation_consumer_loop-AreTexts k ts s s₁ topic₁ sent plain fit consumed,
        )
