-- ===== src/Producer/Session/Retried.antt =====
-- `initKafka` called again for an object that is open, where the library gives no new producer.
use kafka_client.Base.{
  ℕ, ◌≡◌, ◌≢◌, refl, ◌∙◌, ap, inl, inr, Bool, true, false, none, some, ◌∷◌, arith,
}
use mathlib.Core.Path.{subst}
use kafka_client.Base.Int.{ℤ}
use kafka_client.Base.Text.{Text}
use kafka_client.Base.Map.{Map}
use kafka_client.Kafka.{
  Env, Trace, ok, IsSafe, alive, created, destroyed, fresh, conf_create, producer_create,
  delete_conf,
}
use kafka_client.Ownership.{Live, alive-neutral}
use kafka_client.Ownership.Destroyed.{alive-destroyed}
use kafka_client.Producer.State.{KafkaProducer, set_user_agent}
use kafka_client.Producer.Configure.Accepted.{Accepts, set_producer_configuration-Accepts}
use kafka_client.Producer.Lifecycle.{
  init_kafka, create_producer, close_kafka, drain, release, stop_polling, delete_objects,
}
use kafka_client.Producer.Lifecycle.Owned.{Owns, init_kafka-Owns}
use kafka_client.Producer.Lifecycle.Start.{configured_calls}
use kafka_client.Producer.Lifecycle.Frame.{configured_calls-objects, stop_polling-SameObjects}
use kafka_client.Producer.Lifecycle.Closing.{close_kafka_returns-Owns, stop_polling-members}

module _ (env : Env) (custom : Map) (brokers agent : Text) (time_out : ℤ) (p : KafkaProducer)
    (tr : Trace) where
  -- What is left of `p` and the calls when `Producer::create` has failed.
  abbrev left_object : KafkaProducer
  left_object = record p {
    brokers = brokers;
    user_agent = agent;
    producer = none;
    global_conf = some (fresh tr);
  }

  abbrev failed_calls : Trace
  failed_calls =
      producer_create (fresh tr) none ∷ configured_calls env custom brokers agent none p tr

  init_kafka_uncreated :
      Accepts env (fresh tr) custom brokers none p.producer_callback (conf_create (fresh tr) ∷ tr)
      → env.creates_producer (configured_calls env custom brokers agent none p tr) ≡ false
      → init_kafka env custom brokers agent none time_out p tr ≡ (false, left_object, failed_calls)
  unfolding init_kafka create_producer set_user_agent
  init_kafka_uncreated accepts nothing =
      elim (set_producer_configuration-Accepts env (fresh tr) custom brokers none
        p.producer_callback (conf_create (fresh tr) ∷ tr)) [
          | inr (refused, e) ↦ absurd (refused accepts)
          | inl (accepted, e) ↦ rw (e, nothing) refl
        ]

  -- The calls of the `closeKafka` after that: no question for the queue and no poll.
  abbrev left_calls : Trace
  left_calls = delete_conf (fresh tr) ∷ (stop_polling env left_object failed_calls).1

  abbrev stopped : KafkaProducer × Trace
  stopped = stop_polling env left_object failed_calls

  abbrev emptied : KafkaProducer
  emptied = record (stopped.0) { producer = none; global_conf = none }

  close_kafka_uncreated :
      (fuel : ℕ) → close_kafka env fuel left_object failed_calls ≡ ok (emptied, left_calls)
  unfolding close_kafka drain release
  close_kafka_uncreated fuel =
      let (producer, conf) = stop_polling-members env left_object failed_calls in
      ap (λ o. ok (emptied, delete_objects env o (stopped.0).global_conf stopped.1)) producer
      ∙ ap (λ c. ok (emptied, delete_objects env none c stopped.1)) conf

  alive-left_calls : (h : ℕ) → Owns p tr → alive h tr ≡ true → alive h left_calls ≡ true
  unfolding created destroyed
  alive-left_calls h held live =
      alive-destroyed (delete_conf (fresh tr)) (fresh tr) _ refl refl h earlier
      ∙ stop_polling-SameObjects env left_object failed_calls h
      ∙ alive-neutral _ h _ refl refl
      ∙ configured_calls-objects env custom brokers agent none p tr h
      ∙ ground (arith, live)
    where
      earlier : h ≢ fresh tr
      earlier same = omega (arith, held.numbered h live)

  -- If `initKafka` is called again, without a callback, on an object that owns a producer and a
  -- configuration, and the library accepts the whole configuration but creates no producer: it
  -- answers `false`, the object points to no producer but its polling thread still polls the earlier
  -- one; `closeKafka` returns with any fuel, without a question for the queue or a poll, and both the
  -- earlier producer and the earlier configuration still exist after it, while the object points to
  -- neither of them any more. No call has used an object that was gone.
  pub close_kafka-init_kafka_uncreated :
      (fuel o g : ℕ)
      → Owns p tr
      → p.producer ≡ some o
      → p.global_conf ≡ some g
      → Accepts env (fresh tr) custom brokers none p.producer_callback (conf_create (fresh tr) ∷ tr)
      → env.creates_producer (configured_calls env custom brokers agent none p tr) ≡ false
      → let (b, p', tr') = init_kafka env custom brokers agent none time_out p tr in
        (b ≡ false)
        × (p'.producer ≡ none)
        × (p'.event_poll ≡ p.event_poll)
        × (p'' : KafkaProducer) × (tr'' : Trace) × (close_kafka env fuel p' tr' ≡ ok (p'', tr''))
        × (tr'' ≡ delete_conf (fresh tr) ∷ (stop_polling env p' tr').1)
        × (p''.producer ≡ none)
        × (p''.global_conf ≡ none)
        × IsSafe tr''
        × (alive o tr'' ≡ true)
        × (alive g tr'' ≡ true)
  close_kafka-init_kafka_uncreated fuel o g held found configured accepts nothing =
      rw (init_kafka_uncreated accepts nothing) (
        refl,
        refl,
        refl,
        emptied,
        left_calls,
        close_kafka_uncreated fuel,
        refl,
        refl,
        refl,
        (close_kafka_returns-Owns env fuel left_object failed_calls emptied left_calls kept
            (close_kafka_uncreated fuel)).safe,
        alive-left_calls o held (subst (λ x. Live x tr) found held.live_o),
        alive-left_calls g held (subst (λ x. Live x tr) configured held.live_c),
      )
    where
      kept : Owns left_object failed_calls
      kept =
          subst (λ (r : Bool × KafkaProducer × Trace). Owns r.1 r.2)
            (init_kafka_uncreated accepts nothing)
            (init_kafka-Owns env custom brokers agent none time_out p tr tt held)
