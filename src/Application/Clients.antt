-- ===== src/Application/Clients.antt =====
-- The producer and the consumer as the two objects of an application: one complete use of each is
-- from an `initKafka` that answers `true` to a `closeKafka` that returns.
use kafka_client.Base.{ℕ, ◌≡◌, true, none, List, ◌∷◌, All}
use kafka_client.Base.Int.{ℤ, pos}
use kafka_client.Base.Text.{Text}
use kafka_client.Base.Map.{Map}
use kafka_client.Kafka.{Env, Trace, thread_create, ok, IsSafe}
use kafka_client.Ownership.{Holds}
use kafka_client.Ownership.Frame.{SameObjects}
use kafka_client.ReceivedMessage.{ReceivedMessage}
use kafka_client.Producer.State.{KafkaProducer}
use kafka_client.Producer.Lifecycle as ProducerLifecycle
use kafka_client.Producer.Lifecycle.Owned.{Owns}
use kafka_client.Producer.Session as ProducerSession
use kafka_client.Producer.Session.{Posted}
use kafka_client.Producer.Threads.{Threads, Place, entered, returned, testing, exited, Reach}
use kafka_client.Producer.Threads.Schedule.{at}
use kafka_client.Producer.Threads.Life.{init_kafka-closing}
use kafka_client.Consumer.State.{KafkaConsumer}
use kafka_client.Consumer.Lifecycle as ConsumerLifecycle
use kafka_client.Consumer.Session as ConsumerSession
use kafka_client.Consumer.Session.Life.{init_kafka-Session}
use kafka_client.Application.{Owner, Uses, Uses-Holds}

module _ (env : Env) where
  -- A use of a producer. The steps of `closeKafka` come in any order with those of the polling
  -- thread, and the threads of earlier uses have ended.
  pub data ProducerRound (p₀ : KafkaProducer) (tr₀ : Trace) : KafkaProducer → Trace → Type 0 where
    produced :
        (custom : Map) (brokers agent : Text) (time_out : ℤ) (id : ℕ) (l : List Posted)
        (p₁ p₂ : KafkaProducer) (tr₁ tr₂ : Trace) (others : List Place) (s : Threads)
        → All (λ o. o ≡ exited) others
        → ProducerLifecycle.init_kafka env custom brokers agent none time_out p₀ tr₀
          ≡ (true, p₁, thread_create (pos 0) id ∷ tr₁)
        → ProducerSession.Session env p₁ (thread_create (pos 0) id ∷ tr₁) l p₂ tr₂
        → Reach env (at env others entered p₂ tr₂ testing) s
        → s.point ≡ returned
        → ProducerRound p₀ tr₀ s.client s.trace

  -- A use of a consumer.
  pub data ConsumerRound (c₀ : KafkaConsumer) (tr₀ : Trace) : KafkaConsumer → Trace → Type 0 where
    consumed :
        (custom : Map) (brokers : Text) (topics : List Text) (id : Text) (period : ℤ)
        (l : List ReceivedMessage) (r : ReceivedMessage) (c₁ c₂ c₃ : KafkaConsumer)
        (tr₁ tr₂ tr₃ : Trace)
        → ConsumerLifecycle.init_kafka env custom brokers topics id period c₀ tr₀ ≡ (true, c₁, tr₁)
        → ConsumerSession.Session env c₁ tr₁ l c₂ r tr₂
        → ConsumerLifecycle.close_kafka c₂ tr₂ ≡ ok (c₃, tr₃)
        → ConsumerRound c₀ tr₀ c₃ tr₃

  pub produced_lem :
      (p p' : KafkaProducer) (tr tr' : Trace)
      → Owns p tr
      → ProducerRound p tr p' tr'
      → Owns p' tr' × SameObjects tr tr'
  produced_lem p p' tr tr' held
        (produced custom brokers agent time_out id l p₁ p₂ tr₁ tr₂ others s ended started session r
          left) =
      let (out, same, emptied, unconfigured, owns, messages) =
        init_kafka-closing env custom brokers agent none time_out id l p p₁ p₂ tr tr₁ tr₂ others s
          held tt ended started session r left in
      (owns, same)

  pub consumed_lem :
      (c c' : KafkaConsumer) (tr tr' : Trace)
      → Holds c.consumer c.global_conf none tr
      → ConsumerRound c tr c' tr'
      → Holds c'.consumer c'.global_conf none tr' × SameObjects tr tr'
  consumed_lem c c' tr tr' held
        (consumed custom brokers topics id period l r c₁ c₂ c₃ tr₁ tr₂ tr₃ started session closed) =
      let (same, emptied, unconfigured, kept, ms, given, stored) =
        init_kafka-Session env {s = none} custom brokers topics id period l r c c₁ c₂ c₃ tr tr₁ tr₂
          tr₃ held started session closed in
      (kept, same)

  abbrev pub producers : Owner KafkaProducer
  producers = record {
    object = λ p. p.producer;
    configuration = λ p. p.global_conf;
    callback = λ p. p.producer_callback.send_callback;
    Round = ProducerRound;
    Round-Holds = λ p p' tr tr' held round. (produced_lem p p' tr tr' held round).0;
    Round-SameObjects = λ p p' tr tr' held round. (produced_lem p p' tr tr' held round).1;
  }

  abbrev pub consumers : Owner KafkaConsumer
  consumers = record {
    object = λ c. c.consumer;
    configuration = λ c. c.global_conf;
    callback = λ c. none;
    Round = ConsumerRound;
    Round-Holds = λ c c' tr tr' held round. (consumed_lem c c' tr tr' held round).0;
    Round-SameObjects = λ c c' tr tr' held round. (consumed_lem c c' tr tr' held round).1;
  }

  -- An application uses a producer and a consumer, each as often as it likes and one after the
  -- other, every use being from an `initKafka` without a callback that answers `true`, and for the
  -- producer has started its thread, to a `closeKafka` that returns, with any operations that have
  -- returned between, every `send` at a time whose milliseconds a `long long` holds, and with the
  -- steps of the polling thread in any order between those of the producer's `closeKafka`. If both
  -- own what they point to at first: exactly the objects exist that existed before, no call has used
  -- an object that was gone, and both own what they point to.
  pub Uses-SameObjects :
      (p₀ p : KafkaProducer) (c₀ c : KafkaConsumer) (tr₀ tr : Trace)
      → Owns p₀ tr₀
      → Holds c₀.consumer c₀.global_conf none tr₀
      → Uses producers consumers p₀ c₀ tr₀ p c tr
      → SameObjects tr₀ tr × IsSafe tr × Owns p tr × Holds c.consumer c.global_conf none tr
  Uses-SameObjects p₀ p c₀ c tr₀ tr held_p held_c uses =
      let (kept_p, kept_c, same) = Uses-Holds producers consumers held_p held_c uses in
      (same, kept_p.safe, kept_p, kept_c)
