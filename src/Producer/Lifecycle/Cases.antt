-- ===== src/Producer/Lifecycle/Cases.antt =====
-- What a `closeKafka` that has returned has done.
use kafka_client.Base.{ℕ, ◌≡◌, inl, inr, Bool, true, false, not, ◌&&◌, Bool-cases, ◌⊎◌, is_some}
use kafka_client.Kafka.{Env, Trace, Result, ok, ok-injective, >>=-eq-ok}
use kafka_client.Producer.State.{KafkaProducer}
use kafka_client.Producer.Lifecycle.{drain, stop_polling, release, close_kafka}

-- There is neither a producer nor a configuration.
abbrev pub is_closed : KafkaProducer → Bool
is_closed p = not (is_some p.producer) && not (is_some p.global_conf)

module _ (env : Env) where
  -- The end of `closeKafka`, after the loop.
  abbrev pub finish : KafkaProducer → Trace → KafkaProducer × Trace
  finish p tr = release env (stop_polling env p tr).0 (stop_polling env p tr).1

  pub close_kafka-cases :
      (fuel : ℕ) (p p' : KafkaProducer) (tr tr' : Trace)
      → close_kafka env fuel p tr ≡ ok (p', tr')
      → ((is_closed p ≡ true) × (◌≡◌ {A = KafkaProducer × Trace} (p, tr) (p', tr')))
        ⊎ ((is_closed p ≡ false)
            × (tr₁ : Trace) × (drain env fuel p.producer tr ≡ ok tr₁)
            × (finish p tr₁ ≡ (p', tr')))
  unfolding close_kafka
  close_kafka-cases fuel p p' tr tr' e = elim (Bool-cases (is_closed p)) [
    | inl nothing ↦ inl (nothing, ok-injective (rw nothing at e))
    | inr something ↦
        let (tr₁, drained, done) =
          >>=-eq-ok (drain env fuel p.producer tr) finished (rw something at e) in
        inr (something, tr₁, drained, ok-injective done)
  ]
    where
      finished : Trace → Result (KafkaProducer × Trace)
      finished t = ok (finish p t)
