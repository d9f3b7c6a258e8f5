-- ===== src/Producer/Lifecycle/Start.antt =====
-- When a producer's `initKafka` answers `true`, and what it has done then.
use kafka_client.Base.{
  arith, ◌≢◌, sym, ap, ◌∙◌, ℕ, ◌≡◌, refl, ◌⊎◌, inl, inr, Bool, true, false, Bool-cases, Option,
  some, ◌∷◌, contrary,
}
use kafka_client.Base.Int.{ℤ, pos, is_negative}
use kafka_client.Base.Text.{Text}
use kafka_client.Base.Map.{Map}
use kafka_client.Kafka.{Env, Trace, fresh, conf_create, producer_create, thread_create}
use kafka_client.Config.Order.{all_set}
use kafka_client.Producer.State.{KafkaProducer, set_user_agent}
use kafka_client.Producer.Configure.Order.{mandatory}
use kafka_client.Producer.Configure.Accepted.{
  Accepts, registered, set_producer_configuration-Accepts,
}
use kafka_client.Producer.Lifecycle.{start_polling, create_producer, init_kafka, thread_id}

module _ (env : Env) (custom : Map) (brokers agent : Text) (callback : Option ℕ) (p : KafkaProducer)
    (tr : Trace) where
  -- The calls after which the producer is created, and those after which the thread is.
  abbrev pub configured_calls : Trace
  configured_calls =
      all_set env (fresh tr) custom (
        mandatory env (fresh tr) brokers callback p.producer_callback (conf_create (fresh tr) ∷ tr))

  abbrev pub created_calls : Trace
  created_calls = producer_create (fresh tr) (some (fresh configured_calls)) ∷ configured_calls

  -- The library accepts the whole configuration and creates a producer, and the answer of
  -- `pthread_create` is not negative.
  abbrev pub Starts : Type 0
  Starts =
      Accepts env (fresh tr) custom brokers callback p.producer_callback
        (conf_create (fresh tr) ∷ tr)
      × (env.creates_producer configured_calls ≡ true)
      × (is_negative (env.thread_create created_calls) ≡ false)

  -- The object that `initKafka` leaves when it answers `true`.
  abbrev pub running_object : ℤ → KafkaProducer
  running_object time_out = record p {
    brokers = brokers;
    user_agent = agent;
    producer = some (fresh configured_calls);
    event_poll = record {
      producer = some (fresh configured_calls);
      run = true;
      time_out = time_out;
    };
    polling_thread_id = thread_id env (env.thread_create created_calls) created_calls;
    global_conf = some (fresh tr);
    producer_callback =
        (registered env (fresh tr) custom brokers callback p.producer_callback
          (conf_create (fresh tr) ∷ tr)).0;
  }

  -- `initKafka` of a producer answers `true` exactly if the library accepts the configuration and
  -- creates a producer, and `pthread_create` does not answer a negative number. Then the object has
  -- the new configuration, producer and thread, the same producer is polled with the given timeout
  -- and `bRun` set, and the calls were the configuration, its properties, the producer, the thread.
  pub init_kafka-Starts :
      (time_out : ℤ)
      → let result = init_kafka env custom brokers agent callback time_out p tr in
        (Starts
          × (result ≡ (
            true,
            running_object time_out,
            thread_create
                  (env.thread_create created_calls)
                  (thread_id env (env.thread_create created_calls) created_calls)
                ∷ created_calls,
          )))
        ⊎ (¬ Starts × (result.0 ≡ false))
  unfolding init_kafka create_producer start_polling set_user_agent
  init_kafka-Starts time_out =
      elim (set_producer_configuration-Accepts env (fresh tr) custom brokers callback
        p.producer_callback (conf_create (fresh tr) ∷ tr)) [
          | inr (unaccepted, e) ↦ inr (λ s. unaccepted s.0, rw e refl)
          | inl (accepted, e) ↦ elim (Bool-cases (env.creates_producer configured_calls)) [
            | inr none_created ↦ inr (λ s. contrary none_created s.1, rw (e, none_created) refl)
            | inl some_created ↦ elim (Bool-cases (is_negative (env.thread_create created_calls))) [
              | inl negative ↦ inr (λ s. contrary s.2 negative, rw (e, some_created, negative) refl)
              | inr fine ↦ inl ((accepted, some_created, fine), rw (e, some_created, fine) refl)
            ]
          ]
        ]

  -- The answer of `pthread_create`, where that was the last call.
  abbrev created_result : Trace → ℤ
  created_result (thread_create r id ∷ tr') = r
  created_result tr' = pos 1

  -- Where the thread has been started, its id is stored.
  pub init_kafka_thread :
      (time_out : ℤ) (p' : KafkaProducer) (id : ℕ) (tr' : Trace)
      → init_kafka env custom brokers agent callback time_out p tr
        ≡ (true, p', thread_create (pos 0) id ∷ tr')
      → (p' ≡ running_object time_out) × (p'.polling_thread_id ≢ 0)
  init_kafka_thread time_out p' id tr' starts = elim (init_kafka-Starts time_out) [
    | inr (refused', answer) ↦
        absurd (contrary answer (ap (λ (r : Bool × KafkaProducer × Trace). r.0) starts))
    | inl (accepted, result) ↦
        let same = sym starts ∙ result in
        let object : p' ≡ running_object time_out =
          ap (λ (r : Bool × KafkaProducer × Trace). r.1) same in
        (
          object,
          rw object
              (identified (ap (λ (r : Bool × KafkaProducer × Trace). created_result r.2) same)),
        )
  ]
    where
      identified :
          pos 0 ≡ env.thread_create created_calls → (running_object time_out).polling_thread_id ≢ 0
      identified e none_stored = positive (ap (λ r. thread_id env r created_calls) e ∙ none_stored)
        where
          positive : fresh created_calls ≢ 0
          positive q = omega (arith, q)
