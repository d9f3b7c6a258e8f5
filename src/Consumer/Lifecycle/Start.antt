-- ===== src/Consumer/Lifecycle/Start.antt =====
-- When a consumer's `initKafka` answers `true`, and what it has done then.
use kafka_client.Base.{
  ◌≡◌, refl, ◌⊎◌, inl, inr, Bool, true, false, Bool-cases, some, List, ◌∷◌, ap, contrary,
}
use kafka_client.Base.Int.{ℤ}
use kafka_client.Base.Text.{Text, c_string}
use kafka_client.Base.Map.{Map}
use kafka_client.Kafka.{Env, Trace, fresh, conf_create, consumer_create, subscribe, is_no_error}
use kafka_client.Config.Order.{all_set, AllAccepted, set_all-AllAccepted, set_all-stops}
use kafka_client.Consumer.State.{KafkaConsumer}
use kafka_client.Consumer.Lifecycle.{bootstrap_servers, group_id, create_consumer, init_kafka}
use kafka_client.Consumer.Lifecycle.Outcome.{set_consumer_configuration-set_all}

-- The properties in the order in which they are set.
abbrev pub properties : Text → Text → Map → Map
properties brokers id custom =
    (bootstrap_servers, c_string brokers) ∷ (group_id, c_string id) ∷ custom

module _ (env : Env) (custom : Map) (brokers : Text) (topics : List Text) (id : Text)
    (tr : Trace) where
  -- The calls after which the consumer is created.
  abbrev pub configured_calls : Trace
  configured_calls =
      all_set env (fresh tr) (properties brokers id custom) (conf_create (fresh tr) ∷ tr)

  abbrev pub created_calls : Trace
  created_calls = consumer_create (fresh tr) (some (fresh configured_calls)) ∷ configured_calls

  -- The library accepts the brokers, the group and every property of the caller, creates a
  -- consumer and subscribes it without an error.
  abbrev pub Subscribes : Type 0
  Subscribes =
      AllAccepted env (fresh tr) (properties brokers id custom) (conf_create (fresh tr) ∷ tr)
      × (env.creates_consumer configured_calls ≡ true)
      × (is_no_error (env.subscribe created_calls topics) ≡ true)

  -- `initKafka` of a consumer answers `true` exactly if the library accepts every property, creates
  -- a consumer and subscribes it. Then the object has the new configuration and the new consumer,
  -- and the calls were: the configuration, the brokers, the group and the caller's properties in
  -- their order, the consumer, and its subscription to the topics.
  pub init_kafka-Subscribes :
      (period : ℤ) (c : KafkaConsumer)
      → let result = init_kafka env custom brokers topics id period c tr in
        (Subscribes
          × (result ≡ (
            true,
            record c {
              brokers = brokers;
              consumer_id = id;
              poll_period = period;
              global_conf = some (fresh tr);
              consumer = some (fresh configured_calls);
            },
            subscribe (fresh configured_calls) topics (env.subscribe created_calls topics)
                ∷ created_calls,
          )))
        ⊎ (¬ Subscribes × (result.0 ≡ false))
  unfolding init_kafka create_consumer
  init_kafka-Subscribes period c =
      elim (set_all-stops env (fresh tr) (properties brokers id custom)
        (conf_create (fresh tr) ∷ tr)) [
          | inr (failed, stopped) ↦ inr (
            λ s. contrary failed (
                ap (λ (r : Bool × Trace). r.0)
                  (set_all-AllAccepted env (fresh tr) (properties brokers id custom)
                    (conf_create (fresh tr) ∷ tr) s.0)),
            rw
                (set_consumer_configuration-set_all env (fresh tr) brokers id custom
                  (conf_create (fresh tr) ∷ tr))
                (rw failed refl),
          )
          | inl (e, accepted) ↦ elim (Bool-cases (env.creates_consumer configured_calls)) [
            | inr none_created ↦ inr (
              λ s. contrary none_created s.1,
              rw
                  (
                    set_consumer_configuration-set_all env (fresh tr) brokers id custom
                        (conf_create (fresh tr) ∷ tr),
                    e,
                    none_created,
                  )
                  refl,
            )
            | inl some_created ↦
                elim (Bool-cases (is_no_error (env.subscribe created_calls topics))) [
                  | inr not_subscribed ↦ inr (
                    λ s. contrary not_subscribed s.2,
                    rw
                        (
                          set_consumer_configuration-set_all env (fresh tr) brokers id custom
                              (conf_create (fresh tr) ∷ tr),
                          e,
                          some_created,
                        )
                        not_subscribed,
                  )
                  | inl subscribed ↦ inl (
                    (accepted, some_created, subscribed),
                    rw
                        (
                          set_consumer_configuration-set_all env (fresh tr) brokers id custom
                              (conf_create (fresh tr) ∷ tr),
                          e,
                          some_created,
                          subscribed,
                        )
                        refl,
                  )
                ]
          ]
        ]
