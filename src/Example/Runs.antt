-- ===== src/Example/Runs.antt =====
-- The example's calls: none uses an object that is gone, and the loop that consumes ends.
use kafka_client.Base.{
  ℕ, zero, suc, ◌<◌, ◌≡◌, ◌≢◌, refl, Bool, Bool-cases, inl, inr, Option, some, ◌∷◌, arith,
  if◌then◌else◌,
}
use mathlib.Core.Path.{subst}
use kafka_client.Base.Text.{Text}
use kafka_client.Kafka.{
  Env, Trace, fresh, Result, ok, >>=-eq-ok, ok-injective, delete_message, ErrorCode, BrokerError,
}
use kafka_client.Ownership.{Holds}
use kafka_client.ReceivedMessage.{ReceivedMessage}
use kafka_client.Consumer.State.{KafkaConsumer}
use kafka_client.Consumer.Receive.{consume_message, next_message}
use kafka_client.Consumer.Receive.Outcome.{
  Readable, contents_of, consume_message_error, consume_message-Readable,
}
use kafka_client.Consumer.Receive.Owned.{consume_message-Holds}
use kafka_client.Example.{consume_all}

module _ (env : Env) where
  pub consume_all-Holds :
      {s : Option ℕ} (rounds : ℕ) (c : KafkaConsumer) (r : ReceivedMessage) (tr tr' : Trace)
      → Holds c.consumer c.global_conf s tr
      → consume_all env rounds c r tr ≡ ok tr'
      → Holds c.consumer c.global_conf s tr'
  unfolding consume_all
  consume_all-Holds zero c r tr tr' held e = absurd (cc)
  consume_all-Holds {s} (suc rounds) c r tr tr' held e =
      let ((received, r₁, tr₁), consumed, rest) =
        >>=-eq-ok (consume_message env c r tr) (next rounds) e in
      elim (Bool-cases received) [
        | inl more ↦
            consume_all-Holds {s = s} rounds c r₁ tr₁ tr'
              (consume_message-Holds env c r r₁ received tr tr₁ held consumed) (rw more at rest)
        | inr stop ↦
            subst (Holds c.consumer c.global_conf s) (ok-injective (rw stop at rest))
              (consume_message-Holds env c r r₁ received tr tr₁ held consumed)
      ]
    where
      next : ℕ → Bool × ReceivedMessage × Trace → Result Trace
      next k (received, r', tr₁) =
          let rest = consume_all env k c r' tr₁ in if received then rest else ok tr₁

  -- The calls of one round of the loop.
  abbrev pub one_round : ℕ → KafkaConsumer → Trace → Trace
  one_round h c tr = delete_message (fresh tr) ∷ (next_message env c h tr).1

  -- The calls of `n` rounds.
  abbrev pub after_rounds : ℕ → ℕ → KafkaConsumer → Trace → Trace
  after_rounds zero h c tr = tr
  after_rounds (suc n) h c tr = after_rounds n h c (one_round h c tr)

  -- The library gives `n` messages that can be read, and then an error such as a timeout.
  abbrev pub Gives : ℕ → ℕ → KafkaConsumer → Trace → Type 0
  Gives zero h c tr = (env.consume tr c.poll_period).err ≢ ErrorCode.broker BrokerError.no_error
  Gives (suc n) h c tr =
      ((env.consume tr c.poll_period).err ≡ ErrorCode.broker BrokerError.no_error)
      × ((k : Text) × (t : Text) × Readable (env.consume tr c.poll_period) k t)
      × Gives n h c (one_round h c tr)

  -- The loop of `main` ends when the library has given `n` messages that can be read and then an
  -- error, if the fuel is more than `n`: it has made `n + 1` rounds, each of which has deleted its
  -- message.
  pub consume_all-Gives :
      (rounds n h : ℕ) (c : KafkaConsumer) (r : ReceivedMessage) (tr : Trace)
      → c.consumer ≡ some h
      → Gives n h c tr
      → n < rounds
      → consume_all env rounds c r tr ≡ ok (after_rounds (suc n) h c tr)
  unfolding consume_all
  consume_all-Gives zero n h c r tr e gives lt = absurd (omega arith)
  consume_all-Gives (suc rounds) zero h c r tr e gives lt =
      rw (consume_message_error env c r tr h e gives) refl
  consume_all-Gives (suc rounds) (suc n) h c r tr e (good, (k, t, readable), gives) lt =
      rw (consume_message-Readable env c r tr h k t e good readable) (
        consume_all-Gives rounds n h c (contents_of (env.consume tr c.poll_period) k t)
          (one_round h c tr) e gives (omega arith))
