-- ===== src/Consumer/Receive/Frame.antt =====
-- Consuming leaves exactly the objects that there were.
use kafka_client.Base.{ℕ, ◌≡◌, refl, ◌∷◌, false, arith}
use kafka_client.Kafka.{Env, Trace, fresh, consume, delete_message, created, destroyed, alive}
use kafka_client.Ownership.Frame.{SameObjects, alive-new, alive-gone}
use kafka_client.Consumer.State.{KafkaConsumer}
use kafka_client.Consumer.Receive.{next_message}

pub next_message-SameObjects :
    (env : Env) (c : KafkaConsumer) (h : ℕ) (tr : Trace)
    → alive (fresh tr) tr ≡ false
    → SameObjects tr (delete_message (fresh tr) ∷ (next_message env c h tr).1)
unfolding created destroyed
next_message-SameObjects env c h tr dead j = ground (
  arith,
  alive-gone (delete_message (fresh tr)) (fresh tr) j (next_message env c h tr).1 refl refl,
  alive-new (consume h c.poll_period (fresh tr) (env.consume tr c.poll_period)) (fresh tr) j tr refl
      refl,
)
