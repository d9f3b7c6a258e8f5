-- ===== src/Producer/Session/Closed.antt =====
-- What `closeKafka` takes away, and what it leaves.
use kafka_client.Base.{
  ℕ, ◌≡◌, refl, ◌∙◌, ap, inl, inr, false, none, some, if◌then◌else◌, ◌==◌, contrary,
}
use mathlib.Core.Path.{subst}
use kafka_client.Kafka.{Env, Trace, ok, alive}
use kafka_client.Ownership.Frame.{SameObjects}
use kafka_client.Producer.State.{KafkaProducer}
use kafka_client.Producer.Session.Objects.{drain-SameObjects}
use kafka_client.Producer.Lifecycle.{close_kafka, stop_polling, delete_objects, release}
use kafka_client.Producer.Lifecycle.Cases.{close_kafka-cases}
use kafka_client.Producer.Lifecycle.Closing.{stop_polling-members}
use kafka_client.Producer.Lifecycle.Frame.{stop_polling-SameObjects, delete_objects-objects}
use kafka_client.Producer.Session.{outbox}
use kafka_client.Producer.Session.Outbox.{drain-outbox, stop_polling-outbox, delete_objects-outbox}

module _ (env : Env) where
  -- What `closeKafka` leaves: neither of the two objects, and the messages.
  abbrev pub Emptied : ℕ → ℕ → Trace → KafkaProducer × Trace → Type 0
  Emptied o g tr (p', tr') =
      (p'.producer ≡ none)
      × (p'.global_conf ≡ none)
      × (outbox tr' ≡ outbox tr)
      × ((h : ℕ) → alive h tr' ≡ (if g == h then false else if o == h then false else alive h tr))

  released-Emptied :
      (o g : ℕ) (p : KafkaProducer) (tr tr₁ : Trace)
      → p.producer ≡ some o
      → p.global_conf ≡ some g
      → SameObjects tr tr₁
      → outbox tr₁ ≡ outbox tr
      → Emptied o g tr (release env (stop_polling env p tr₁).0 (stop_polling env p tr₁).1)
  unfolding release
  released-Emptied o g p tr tr₁ found configured same messages =
      let (producer, conf) = stop_polling-members env p tr₁ in
      let stopped = (stop_polling env p tr₁).1 in
      (
        refl,
        refl,
        delete_objects-outbox env (stop_polling env p tr₁).0.producer
              (stop_polling env p tr₁).0.global_conf stopped
            ∙ stop_polling-outbox env p tr₁
            ∙ messages,
        λ h.
            ap (λ x. alive h (delete_objects env x (stop_polling env p tr₁).0.global_conf stopped))
              (producer ∙ found)
            ∙ ap (λ x. alive h (delete_objects env (some o) x stopped)) (conf ∙ configured)
            ∙ delete_objects-objects env o g h stopped
            ∙ ap (λ b. if g == h then false else if o == h then false else b)
                (stop_polling-SameObjects env p tr₁ h ∙ same h),
      )

  pub close_kafka-objects :
      (fuel o g : ℕ) (p p' : KafkaProducer) (tr tr' : Trace)
      → p.producer ≡ some o
      → p.global_conf ≡ some g
      → close_kafka env fuel p tr ≡ ok (p', tr')
      → Emptied o g tr (p', tr')
  unfolding close_kafka release
  close_kafka-objects fuel o g p p' tr tr' found configured e =
      elim (close_kafka-cases env fuel p p' tr tr' e) [
        | inl (nothing, same) ↦ (contrary refl (rw found at nothing))
        | inr (something, tr₁, drained, done) ↦ subst (Emptied o g tr) done (
            released-Emptied o g p tr tr₁ found configured
              (drain-SameObjects env fuel p.producer tr tr₁ drained)
              (drain-outbox env fuel p.producer tr tr₁ drained))
      ]
