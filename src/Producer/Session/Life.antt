-- ===== src/Producer/Session/Life.antt =====
-- From `initKafka` to `closeKafka`: the objects that come and go, and the messages.
use kafka_client.Base.{ℕ, ◌≡◌, ◌∙◌, ap, true, none, List, ◌++◌, Option}
use kafka_client.Base.Int.{ℤ}
use kafka_client.Base.Text.{Text}
use kafka_client.Base.Map.{Map}
use kafka_client.Kafka.{Env, Trace, ok, alive}
use kafka_client.Ownership.Frame.{back}
use kafka_client.Callback.Delivery.Owned.{Registrable}
use kafka_client.Producer.State.{KafkaProducer}
use kafka_client.Producer.Session.Objects.{Session-Kept}
use kafka_client.Producer.Lifecycle.{init_kafka, close_kafka}
use kafka_client.Producer.Lifecycle.Owned.{Owns}
use kafka_client.Producer.Lifecycle.Closing.{close_kafka_returns-Owns}
use kafka_client.Producer.Session.{Posted, outbox, Session}
use kafka_client.Producer.Session.Outbox.{Session-outbox}
use kafka_client.Producer.Session.Started.{remaining, init_kafka-Started}
use kafka_client.Producer.Session.Closed.{close_kafka-objects}

module _ (env : Env) where
  -- `closeKafka` as one call, without the steps of a thread in it; Producer/Threads/Life has these.
  pub init_kafka-close_kafka :
      (custom : Map) (brokers agent : Text) (callback : Option ℕ) (time_out : ℤ) (fuel : ℕ)
      (l : List Posted) (p₀ p₁ p₂ p₃ : KafkaProducer) (tr₀ tr₁ tr₂ tr₃ : Trace)
      → Owns p₀ tr₀
      → Registrable callback p₀.producer none p₀.producer_callback.send_callback tr₀
      → init_kafka env custom brokers agent callback time_out p₀ tr₀ ≡ (true, p₁, tr₁)
      → Session env p₁ tr₁ l p₂ tr₂
      → close_kafka env fuel p₂ tr₂ ≡ ok (p₃, tr₃)
      → ((h : ℕ) → alive h tr₃ ≡ remaining callback p₀ tr₀ h)
        × (p₃.producer ≡ none)
        × (p₃.global_conf ≡ none)
        × Owns p₃ tr₃
        × (outbox tr₃ ≡ l ++ outbox tr₀)
  init_kafka-close_kafka custom brokers agent callback time_out fuel l p₀ p₁ p₂ p₃ tr₀ tr₁ tr₂ tr₃
        held new started session closed =
      let s =
        init_kafka-Started env custom brokers agent callback time_out p₀ p₁ tr₀ tr₁ held new
          started in
      let k = Session-Kept env s.owns s.polled_object session in
      let (emptied, unconfigured, messages, objects) =
        close_kafka-objects env fuel s.object s.configuration p₂ p₃ tr₂ tr₃
          (k.producer ∙ s.has_object) (k.configuration ∙ s.has_configuration) closed in
      (
        λ h.
            back s.object s.configuration h (remaining callback p₀ tr₀) s.new_object
              s.new_configuration (objects h) (k.same h ∙ s.objects h),
        emptied,
        unconfigured,
        close_kafka_returns-Owns env fuel p₂ tr₂ p₃ tr₃ k.owns closed,
        messages ∙ Session-outbox session ∙ ap (λ t. l ++ t) s.messages,
      )
