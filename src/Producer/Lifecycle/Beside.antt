-- ===== src/Producer/Lifecycle/Beside.antt =====
-- What a producer's operations leave of an object `s` that is not the producer's own, and of the
-- producer and the configuration beside it.
use kafka_client.Base.{
  ℕ, ◌≡◌, refl, inl, inr, Bool, true, false, Option, none, some, ◌∷◌, if-elim, ◌==◌, if◌then◌else◌,
  ◌∙◌, sym, ap,
}
use mathlib.Core.Path.{subst}
use kafka_client.Base.Int.{ℤ}
use kafka_client.Base.Text.{Text, c_string}
use kafka_client.Base.Map.{Map}
use kafka_client.Kafka.{Env, Trace, fresh, conf_create, ok, created, destroyed, needed}
use kafka_client.Ownership.{Holds, Holds-neutral, Holds-no_object}
use kafka_client.Ownership.Created.{Holds-new_object, Holds-new_configuration}
use kafka_client.Config.{set_property}
use kafka_client.Callback.Delivery.{ProducerCallback}
use kafka_client.Producer.State.{KafkaProducer}
use kafka_client.Producer.Configure.{
  bootstrap_servers, set_event_cb, set_dr_cb, set_producer_configuration, finish_configuration,
}
use kafka_client.Producer.Configure.Owned.{set_producer_configuration-Holds}
use kafka_client.Producer.Lifecycle.{
  start_polling, create_producer, init_kafka, poll_event, stop_polling, close_kafka, release,
}
use kafka_client.Producer.Lifecycle.Cases.{close_kafka-cases}
use kafka_client.Producer.Lifecycle.Owned.{poll_once-Holds, drain-Holds, delete_objects-Holds}

-- The same answer and the same calls, with the callback `k`.
abbrev SameAnswer :
    ProducerCallback → Bool × ProducerCallback × Trace → Bool × ProducerCallback × Trace → Type 0
SameAnswer k r r' = r' ≡ (r.0, k, r.2)

if_same :
    (k : ProducerCallback) (b : Bool) (x y : Bool × ProducerCallback × Trace)
    {x' y' : Bool × ProducerCallback × Trace}
    → SameAnswer k x x'
    → SameAnswer k y y'
    → SameAnswer k (if b then x else y) (if b then x' else y')
if_same k true x y e f = e
if_same k false x y e f = f

module _ (env : Env) where
  create_producer-Holds :
      {s : Option ℕ} (conf : ℕ) (time_out : ℤ) (p : KafkaProducer) (tr : Trace)
      → p.global_conf ≡ some conf
      → Holds p.producer (some conf) s tr
      → let (b, p', tr') = create_producer env conf time_out p tr in
        Holds p'.producer p'.global_conf s tr'
  unfolding create_producer start_polling created destroyed needed
  create_producer-Holds {s} conf time_out p tr e held =
      if-elim {A = Bool × KafkaProducer × Trace} (λ r. Holds (r.1).producer (r.1).global_conf s r.2)
        (env.creates_producer tr)
        (rw e
          (Holds-neutral _ _ refl refl tt (Holds-new_object _ tr refl refl (held.live_c, tt) held)))
        (rw e (Holds-neutral _ tr refl refl (held.live_c, tt) (Holds-no_object tr held)))

  finish_configuration-none :
      (conf : ℕ) (custom : Map) (k k' : ProducerCallback) (tr : Trace)
      → SameAnswer k'
          (finish_configuration env conf custom k tr)
          (finish_configuration env conf custom k' tr)
  unfolding finish_configuration
  finish_configuration-none conf custom k k' tr = if_same k' (set_dr_cb env conf tr).0 _ _ refl refl

  -- Without a new callback, the registered one makes no difference.
  set_producer_configuration-none :
      (conf : ℕ) (brokers : Text) (custom : Map) (k k' : ProducerCallback) (tr : Trace)
      → SameAnswer k'
          (set_producer_configuration env conf brokers custom none k tr)
          (set_producer_configuration env conf brokers custom none k' tr)
  unfolding set_producer_configuration
  set_producer_configuration-none conf brokers custom k k' tr =
      let first = set_property env conf bootstrap_servers (c_string brokers) tr in
      if_same k' first.0 _ _
        (if_same k' (set_event_cb env conf first.1).0 _ _
          (finish_configuration-none conf custom k k' (set_event_cb env conf first.1).1) refl)
        refl

  pub init_kafka-Holds :
      {s : Option ℕ} (custom : Map) (brokers agent : Text) (time_out : ℤ) (p : KafkaProducer)
      (tr : Trace)
      → Holds p.producer p.global_conf s tr
      → let (b, p', tr') = init_kafka env custom brokers agent none time_out p tr in
        Holds p'.producer p'.global_conf s tr'
  unfolding init_kafka created destroyed needed
  init_kafka-Holds {s} custom brokers agent time_out p tr held =
      if-elim {A = Bool × KafkaProducer × Trace} (λ r. Holds (r.1).producer (r.1).global_conf s r.2)
        configured.0 (create_producer-Holds {s = s} (fresh tr) time_out _ configured.2 refl kept)
        kept
    where
      configured : Bool × ProducerCallback × Trace
      configured =
          set_producer_configuration env (fresh tr) brokers custom none p.producer_callback
            (conf_create (fresh tr) ∷ tr)

      other : ProducerCallback
      other = record { send_callback = s; is_default_callback = false }

      kept : Holds p.producer (some (fresh tr)) s configured.2
      kept =
          subst
            (λ (r : Bool × ProducerCallback × Trace).
              Holds p.producer (some (fresh tr)) (r.1).send_callback r.2)
            (set_producer_configuration-none (fresh tr) brokers custom p.producer_callback other
              (conf_create (fresh tr) ∷ tr))
            (set_producer_configuration-Holds env (fresh tr) brokers custom none p.producer other _
              tt (Holds-new_configuration _ tr refl refl tt held))

  pub poll_event-Holds :
      {s : Option ℕ} (time_out : ℤ) (p : KafkaProducer) (tr : Trace)
      → Holds p.producer p.global_conf s tr
      → Holds p.producer p.global_conf s (poll_event env time_out p tr).1
  unfolding poll_event
  poll_event-Holds time_out p tr held = poll_once-Holds env p.producer time_out tr held

  stop_polling-Holds :
      {s : Option ℕ} (p : KafkaProducer) (tr : Trace)
      → Holds p.producer p.global_conf s tr
      → let (p', tr') = stop_polling env p tr in Holds p'.producer p'.global_conf s tr'
  unfolding stop_polling created destroyed needed
  stop_polling-Holds {s} p tr held =
      if-elim {A = KafkaProducer × Trace} (λ r. Holds (r.0).producer (r.0).global_conf s r.1)
        p.event_poll.run
        (if-elim (Holds p.producer p.global_conf s) (p.polling_thread_id == 0) held
          (Holds-neutral _ tr refl refl tt held))
        held

  pub close_kafka_returns-Holds :
      {s : Option ℕ} (fuel : ℕ) (p p' : KafkaProducer) (tr tr' : Trace)
      → Holds p.producer p.global_conf s tr
      → close_kafka env fuel p tr ≡ ok (p', tr')
      → Holds p'.producer p'.global_conf s tr'
  unfolding close_kafka release
  close_kafka_returns-Holds {s} fuel p p' tr tr' held e =
      elim (close_kafka-cases env fuel p p' tr tr' e) [
        | inl (nothing, same) ↦
            subst (λ (r : KafkaProducer × Trace). Holds (r.0).producer (r.0).global_conf s r.1) same
              held
        | inr (something, tr₁, drained, done) ↦
            subst (λ (r : KafkaProducer × Trace). Holds (r.0).producer (r.0).global_conf s r.1) done
              (delete_objects-Holds env _ _ _ (
                stop_polling-Holds {s = s} p tr₁
                  (drain-Holds env fuel p.producer tr tr₁ held drained)))
      ]

  create_producer-callback :
      (conf : ℕ) (time_out : ℤ) (p : KafkaProducer) (tr : Trace)
      → (create_producer env conf time_out p tr).1.producer_callback ≡ p.producer_callback
  unfolding create_producer start_polling
  create_producer-callback conf time_out p tr =
      if-elim {A = Bool × KafkaProducer × Trace}
        (λ r. (r.1).producer_callback ≡ p.producer_callback) (env.creates_producer tr) refl refl

  pub init_kafka-callback :
      (custom : Map) (brokers agent : Text) (time_out : ℤ) (p : KafkaProducer) (tr : Trace)
      → (init_kafka env custom brokers agent none time_out p tr).1.producer_callback
        ≡ p.producer_callback
  unfolding init_kafka
  init_kafka-callback custom brokers agent time_out p tr =
      if-elim {A = Bool × KafkaProducer × Trace}
        (λ r. (r.1).producer_callback ≡ p.producer_callback) configured.0
        (create_producer-callback (fresh tr) time_out _ configured.2 ∙ same) same
    where
      configured : Bool × ProducerCallback × Trace
      configured =
          set_producer_configuration env (fresh tr) brokers custom none p.producer_callback
            (conf_create (fresh tr) ∷ tr)

      same : configured.1 ≡ p.producer_callback
      same =
          ap (λ (r : Bool × ProducerCallback × Trace). r.1)
            (set_producer_configuration-none (fresh tr) brokers custom p.producer_callback
              p.producer_callback (conf_create (fresh tr) ∷ tr))

  stop_polling-callback :
      (p : KafkaProducer) (tr : Trace)
      → (stop_polling env p tr).0.producer_callback ≡ p.producer_callback
  unfolding stop_polling
  stop_polling-callback p tr =
      if-elim {A = KafkaProducer × Trace} (λ r. (r.0).producer_callback ≡ p.producer_callback)
        p.event_poll.run refl refl

  pub close_kafka-callback :
      (fuel : ℕ) (p p' : KafkaProducer) (tr tr' : Trace)
      → close_kafka env fuel p tr ≡ ok (p', tr')
      → p'.producer_callback ≡ p.producer_callback
  unfolding close_kafka release
  close_kafka-callback fuel p p' tr tr' e = elim (close_kafka-cases env fuel p p' tr tr' e) [
    | inl (nothing, same) ↦ ap (λ (r : KafkaProducer × Trace). (r.0).producer_callback) (sym same)
    | inr (something, tr₁, drained, done) ↦
        ap (λ (r : KafkaProducer × Trace). (r.0).producer_callback) (sym done)
        ∙ stop_polling-callback p tr₁
  ]
