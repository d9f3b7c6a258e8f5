-- ===== src/Example/Frame.antt =====
-- The loop of the example leaves exactly the objects that there were.
use kafka_client.Base.{ℕ, zero, suc, refl, ◌∙◌, Option, some}
use kafka_client.Kafka.{Env, Trace}
use kafka_client.Ownership.{Holds}
use kafka_client.Ownership.Frame.{SameObjects, fresh-dead}
use kafka_client.Consumer.State.{KafkaConsumer}
use kafka_client.Consumer.Receive.Frame.{next_message-SameObjects}
use kafka_client.Consumer.Receive.Owned.{consumed-Holds}
use kafka_client.Example.Runs.{one_round, after_rounds}

module _ (env : Env) where
  pub after_rounds-Holds :
      {g s : Option ℕ} (n h : ℕ) (c : KafkaConsumer) (tr : Trace)
      → Holds (some h) g s tr
      → Holds (some h) g s (after_rounds env n h c tr)
  after_rounds-Holds zero h c tr held = held
  after_rounds-Holds (suc n) h c tr held =
      after_rounds-Holds n h c (one_round env h c tr) (consumed-Holds env h c tr held)

  pub after_rounds-SameObjects :
      {g s : Option ℕ} (n h : ℕ) (c : KafkaConsumer) (tr : Trace)
      → Holds (some h) g s tr
      → SameObjects tr (after_rounds env n h c tr)
  after_rounds-SameObjects zero h c tr held j = refl
  after_rounds-SameObjects {g} {s} (suc n) h c tr held j =
      after_rounds-SameObjects {g = g} {s = s} n h c (one_round env h c tr)
        (consumed-Holds env h c tr held) j
      ∙ next_message-SameObjects env c h tr (fresh-dead tr held) j
