-- ===== src/Producer/Lifecycle/Reports.antt =====
-- Delivery reports arrive whenever the library's `poll` runs, so between any two calls of an
-- application: to whom they go then.
use kafka_client.Base.{
  ◌≡◌, refl, ◌≢◌, ◌⊎◌, inl, inr, Bool, true, false, Option-cases, Option, none, some, ◌∷◌, arith,
  is_some, if-elim, ap, ◌∙◌, sym, ℕ,
}
use mathlib.Core.Path.{subst}
use kafka_client.Base.Int.{ℤ}
use kafka_client.Base.Text.{Text}
use kafka_client.Base.Map.{Map}
use kafka_client.Kafka.{Env, Trace, ok, alive, Message, not_persisted, fresh, conf_create}
use kafka_client.Ownership.{Live}
use kafka_client.Callback.Delivery.{ProducerCallback, set_send_callback, success, fail, dr_cb}
use kafka_client.Producer.State.{
  KafkaProducer, construct, set_user_agent, set_debug_mode, set_topic,
}
use kafka_client.Producer.Configure.{set_producer_configuration, finish_configuration}
use kafka_client.Producer.Lifecycle.{
  init_kafka, create_producer, start_polling, close_kafka, stop_polling, release,
}
use kafka_client.Producer.Lifecycle.Reachable.{
  Reach, constructed, application, initialised, polled, named, debugged, sent, closed, Reach-Owns,
}

-- Some object is registered.
abbrev HasCallback : ProducerCallback → Type 0
HasCallback k = is_some k.send_callback ≡ true

module _ (env : Env) where
  configured-HasCallback :
      (conf : ℕ) (brokers : Text) (custom : Map) (callback : Option ℕ) (k : ProducerCallback)
      (tr : Trace)
      → HasCallback k
      → HasCallback (set_producer_configuration env conf brokers custom callback k tr).1
  unfolding set_producer_configuration finish_configuration set_send_callback
  configured-HasCallback conf brokers custom none k tr has = ground arith
  configured-HasCallback conf brokers custom (some h) k tr has = ground arith

  created-callback :
      (conf : ℕ) (time_out : ℤ) (p : KafkaProducer) (tr : Trace)
      → (create_producer env conf time_out p tr).1.producer_callback ≡ p.producer_callback
  unfolding create_producer start_polling
  created-callback conf time_out p tr = ground arith

  init_kafka-HasCallback :
      (custom : Map) (brokers agent : Text) (callback : Option ℕ) (time_out : ℤ) (p : KafkaProducer)
      (tr : Trace)
      → HasCallback p.producer_callback
      → HasCallback (init_kafka env custom brokers agent callback time_out p tr).1.producer_callback
  unfolding init_kafka set_user_agent
  init_kafka-HasCallback custom brokers agent callback time_out p tr has =
      if-elim {A = Bool × KafkaProducer × Trace} (λ r. HasCallback (r.1).producer_callback) result.0
        (rw (created-callback (fresh tr) time_out with_callback result.2) has') has'
    where
      result : Bool × ProducerCallback × Trace
      result =
          set_producer_configuration env (fresh tr) brokers custom callback p.producer_callback
            (conf_create (fresh tr) ∷ tr)

      with_callback : KafkaProducer
      with_callback = record (set_user_agent agent (record p { brokers = brokers })) {
        global_conf = some (fresh tr);
        producer_callback = result.1;
      }

      has' : HasCallback result.1
      has' =
          configured-HasCallback (fresh tr) brokers custom callback p.producer_callback
            (conf_create (fresh tr) ∷ tr) has

  close_kafka-callback :
      (fuel : ℕ) (p p' : KafkaProducer) (tr tr' : Trace)
      → close_kafka env fuel p tr ≡ ok (p', tr')
      → p'.producer_callback ≡ p.producer_callback
  unfolding close_kafka release stop_polling
  close_kafka-callback fuel p p' tr tr' e = ground arith

Reach-HasCallback :
    {env : Env} {p : KafkaProducer} {tr : Trace} → Reach env p tr → HasCallback p.producer_callback
unfolding construct set_debug_mode set_topic
Reach-HasCallback (constructed junk) = refl
Reach-HasCallback (application r) = Reach-HasCallback r
Reach-HasCallback {env}
      (initialised {p = p} {tr = tr} custom brokers agent callback time_out new r) =
    init_kafka-HasCallback env custom brokers agent callback time_out p tr (Reach-HasCallback r)
Reach-HasCallback (polled time_out r) = Reach-HasCallback r
Reach-HasCallback (named t r) = Reach-HasCallback r
Reach-HasCallback (debugged b r) = Reach-HasCallback r
Reach-HasCallback (sent m b tr' e r) = Reach-HasCallback r
Reach-HasCallback {env} (closed {p = p} {tr = tr} fuel p' tr' e r) =
    rw (close_kafka-callback env fuel p p' tr tr' e) (Reach-HasCallback r)

-- A report that comes after any sequence of calls of a producer's operations that have returned,
-- in which a callback object is registered only if it exists and is new to the producer: it goes to
-- the registered object, which exists, as a failure exactly if the message was not persisted, and
-- no null pointer is followed.
pub Reach-dr_cb :
    {env : Env} {p : KafkaProducer} {tr : Trace} (m : Message)
    → Reach env p tr
    → (h : ℕ) × (p.producer_callback.send_callback ≡ some h)
      × (alive h tr ≡ true)
      × (((m.status ≡ not_persisted) × (dr_cb p.producer_callback m ≡ ok (fail h m)))
          ⊎ ((m.status ≢ not_persisted) × (dr_cb p.producer_callback m ≡ ok (success h m))))
unfolding dr_cb
Reach-dr_cb {env} {p} {tr} m r = elim (Option-cases p.producer_callback.send_callback) [
  | inl missing ↦ absurd (true_false (sym (Reach-HasCallback r) ∙ ap is_some missing))
  | inr (h, found) ↦ (h, found, subst (λ o. Live o tr) found (Reach-Owns r).live_s, ground arith)
]
  where
    true_false : true ≡ false → ⊥
    true_false q = cc
