-- ===== src/Producer/Lifecycle/Owned.antt =====
-- What a producer owns after each operation: every object that it points to exists, and no call
-- has used one that was gone.
use kafka_client.Base.{
  ℕ, zero, suc, ◌≡◌, refl, ◌∙◌, inl, inr, Bool, Bool-cases, Option, none, some, ◌∷◌, if-elim, arith,
  ltb, ◌==◌,
}
use mathlib.Core.Path.{subst}
use kafka_client.Base.Int.{ℤ, pos}
use kafka_client.Base.Text.{Text}
use kafka_client.Base.Map.{Map}
use kafka_client.Kafka.{
  Env, Trace, fresh, conf_create, poll, outq_len, delete_producer, ok, created, destroyed, needed,
  ok-injective,
}
use kafka_client.Ownership.{Holds, Holds-neutral, Holds-no_object}
use kafka_client.Ownership.Created.{Holds-new_object, Holds-new_configuration, alive-created}
use kafka_client.Ownership.Destroyed.{Holds-deleted_object, Holds-deleted_configuration}
use kafka_client.Callback.Delivery.{ProducerCallback}
use kafka_client.Callback.Delivery.Owned.{Registrable}
use kafka_client.Producer.State.{KafkaProducer}
use kafka_client.Producer.Configure.{set_producer_configuration}
use kafka_client.Producer.Configure.Owned.{set_producer_configuration-Holds}
use kafka_client.Producer.Lifecycle.{
  start_polling, create_producer, init_kafka, poll_event, drain, stop_polling, delete_objects,
  poll_once,
}

abbrev pub Owns : KafkaProducer → Trace → Type 0
Owns p tr = Holds p.producer p.global_conf p.producer_callback.send_callback tr

module _ (env : Env) where
  create_producer-Owns :
      (conf : ℕ) (time_out : ℤ) (p : KafkaProducer) (tr : Trace)
      → p.global_conf ≡ some conf
      → Holds p.producer (some conf) p.producer_callback.send_callback tr
      → let (b, p', tr') = create_producer env conf time_out p tr in Owns p' tr'
  unfolding create_producer start_polling created destroyed needed
  create_producer-Owns conf time_out p tr e held =
      if-elim {A = Bool × KafkaProducer × Trace} (λ r. Owns r.1 r.2) (env.creates_producer tr)
        (rw e
          (Holds-neutral _ _ refl refl tt (Holds-new_object _ tr refl refl (held.live_c, tt) held)))
        (rw e (Holds-neutral _ tr refl refl (held.live_c, tt) (Holds-no_object tr held)))

  Registrable-conf_create :
      (n o c s : Option ℕ) (tr : Trace)
      → Holds o c s tr
      → Registrable n o none s tr
      → Registrable n o (some (fresh tr)) s (conf_create (fresh tr) ∷ tr)
  unfolding created destroyed
  Registrable-conf_create none o c s tr held new = tt
  Registrable-conf_create (some n) o c s tr held (live, apart_o, apart_c, apart_s) = (
    alive-created _ tr refl refl n (omega (arith, held.numbered n live)) ∙ live,
    apart_o,
    omega (arith, held.numbered n live),
    apart_s,
  )

  -- `initKafka`, also on a producer that is running already.
  pub init_kafka-Owns :
      (custom : Map) (brokers agent : Text) (callback : Option ℕ) (time_out : ℤ) (p : KafkaProducer)
      (tr : Trace)
      → Registrable callback p.producer none p.producer_callback.send_callback tr
      → Owns p tr
      → let (b, p', tr') = init_kafka env custom brokers agent callback time_out p tr in Owns p' tr'
  unfolding init_kafka created destroyed needed
  init_kafka-Owns custom brokers agent callback time_out p tr new held =
      if-elim {A = Bool × KafkaProducer × Trace} (λ r. Owns r.1 r.2) configured.0
        (create_producer-Owns (fresh tr) time_out _ configured.2 refl kept) kept
    where
      configured : Bool × ProducerCallback × Trace
      configured =
          set_producer_configuration env (fresh tr) brokers custom callback p.producer_callback
            (conf_create (fresh tr) ∷ tr)

      kept : Holds p.producer (some (fresh tr)) (configured.1).send_callback configured.2
      kept =
          set_producer_configuration-Holds env (fresh tr) brokers custom callback p.producer
            p.producer_callback _
            (Registrable-conf_create callback p.producer p.global_conf _ tr held new)
            (Holds-new_configuration _ tr refl refl tt held)

  pub poll_once-Holds :
      (o : Option ℕ) {c s : Option ℕ} (time_out : ℤ) (tr : Trace)
      → Holds o c s tr
      → Holds o c s (poll_once env o time_out tr).1
  unfolding created destroyed needed
  poll_once-Holds none time_out tr held = held
  poll_once-Holds (some h) time_out tr held = Holds-neutral _ tr refl refl (held.live_o, tt) held

  pub poll_event-Owns :
      (time_out : ℤ) (p : KafkaProducer) (tr : Trace)
      → Owns p tr
      → Owns p (poll_event env time_out p tr).1
  unfolding poll_event
  poll_event-Owns time_out p tr held = poll_once-Holds p.producer time_out tr held

  pub drain-Holds :
      (fuel : ℕ) (o : Option ℕ) {c s : Option ℕ} (tr tr' : Trace)
      → Holds o c s tr
      → drain env fuel o tr ≡ ok tr'
      → Holds o c s tr'
  unfolding drain created destroyed needed
  drain-Holds fuel none tr tr' held e = subst (Holds none _ _) (ok-injective e) held
  drain-Holds zero (some h) tr tr' held e = absurd (cc)
  drain-Holds (suc fuel) (some h) {c} {s} tr tr' held e =
      elim (Bool-cases (ltb 0 (env.outq_len tr))) [
        | inl busy ↦ drain-Holds fuel (some h) {c = c} {s = s} _ tr' polled (rw busy at e)
        | inr idle ↦ subst (Holds (some h) c s) (ok-injective (rw idle at e)) asked
      ]
    where
      asked : Holds (some h) c s (outq_len h (env.outq_len tr) ∷ tr)
      asked = Holds-neutral _ tr refl refl (held.live_o, tt) held

      polled : Holds (some h) c s (poll h (pos 500) ∷ outq_len h (env.outq_len tr) ∷ tr)
      polled = Holds-neutral _ _ refl refl (asked.live_o, tt) asked

  pub stop_polling-Owns :
      (p : KafkaProducer) (tr : Trace)
      → Owns p tr
      → let (p', tr') = stop_polling env p tr in Owns p' tr'
  unfolding stop_polling created destroyed needed
  stop_polling-Owns p tr held =
      if-elim {A = KafkaProducer × Trace} (λ r. Owns r.0 r.1) p.event_poll.run
        (if-elim (Owns p) (p.polling_thread_id == 0) held (Holds-neutral _ tr refl refl tt held))
        held

  pub delete_objects-Holds :
      (o c : Option ℕ) {s : Option ℕ} (tr : Trace)
      → Holds o c s tr
      → Holds none none s (delete_objects env o c tr)
  unfolding created destroyed needed
  delete_objects-Holds none none tr held = held
  delete_objects-Holds none (some j) tr held =
      Holds-deleted_configuration _ j tr refl refl (held.live_c, tt) held
  delete_objects-Holds (some h) none tr held =
      Holds-deleted_object _ h tr refl refl (held.live_o, tt) held
  delete_objects-Holds (some h) (some j) {s} tr held =
      Holds-deleted_configuration _ j _ refl refl (deleted.live_c, tt) deleted
    where
      deleted : Holds none (some j) s (delete_producer h ∷ tr)
      deleted = Holds-deleted_object _ h tr refl refl (held.live_o, tt) held
