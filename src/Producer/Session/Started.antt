-- ===== src/Producer/Session/Started.antt =====
-- What `initKafka` adds, and what it leaves.
use kafka_client.Base.{
  ℕ, ◌≡◌, refl, sym, ◌∙◌, ap, inl, inr, Bool, true, false, Bool-cases, none, some, ◌∷◌, arith,
  if◌then◌else◌, ◌==◌, Option, length, ◌≤◌, contrary,
}
use mathlib.Core.Path.{subst}
use kafka_client.Base.Int.{ℤ}
use kafka_client.Base.Text.{Text, c_string}
use kafka_client.Base.Map.{Map}
use kafka_client.Kafka.{
  Env, Trace, fresh, alive, created, destroyed, conf_create, conf_set_event_cb, conf_set, conf_ok,
  delete_send_callback,
}
use kafka_client.Ownership.{alive-neutral, Live}
use kafka_client.Ownership.Frame.{fresh-dead, later-dead, all_set-longer}
use kafka_client.Callback.Delivery.Owned.{Registrable}
use kafka_client.Callback.Delivery.{ProducerCallback, set_send_callback}
use kafka_client.Producer.State.{KafkaProducer}
use kafka_client.Producer.Configure.{register, bootstrap_servers}
use kafka_client.Producer.Configure.Order.{mandatory}
use kafka_client.Producer.Lifecycle.{init_kafka}
use kafka_client.Producer.Lifecycle.Owned.{Owns, init_kafka-Owns}
use kafka_client.Producer.Lifecycle.Frame.{created_calls-objects, is_replaced}
use kafka_client.Producer.Lifecycle.Start as Start
use kafka_client.Producer.Session.{outbox}
use kafka_client.Producer.Session.Outbox.{all_set-outbox}

-- The objects but a replaced callback.
abbrev pub remaining : Option ℕ → KafkaProducer → Trace → ℕ → Bool
remaining callback p tr h =
    if is_replaced callback p.producer_callback.send_callback h then false else alive h tr

module _ (env : Env) where
  -- What `initKafka` adds: a producer and a configuration, which were not there.
  pub record Started (callback : Option ℕ) (p : KafkaProducer) (tr : Trace) (p' : KafkaProducer)
      (tr' : Trace) : Type 0 where
    pub object : ℕ
    pub configuration : ℕ
    pub has_object : p'.producer ≡ some object
    pub has_configuration : p'.global_conf ≡ some configuration
    pub polled_object : p'.event_poll.producer ≡ p'.producer
    pub new_object : remaining callback p tr object ≡ false
    pub new_configuration : remaining callback p tr configuration ≡ false
    pub owns : Owns p' tr'
    pub messages : outbox tr' ≡ outbox tr
    pub objects :
        (h : ℕ)
        → alive h tr' ≡ (
            if object == h
            then true
            else if configuration == h
            then true
            else remaining callback p tr h)

  -- A replaced callback existed, so that it is not the new configuration.
  is_replaced-alive :
      (callback s : Option ℕ) (h : ℕ) (tr : Trace)
      → Live s tr
      → is_replaced callback s h ≡ true
      → alive h tr ≡ true
  is_replaced-alive none s h tr live r = contrary refl r
  is_replaced-alive (some n) none h tr live r = contrary refl r
  is_replaced-alive (some n) (some j) h tr live r = ap (λ i. alive i tr) (sym (==→≡ r)) ∙ live
    where
      ==→≡ : {a b : ℕ} → (a == b) ≡ true → a ≡ b
      ==→≡ q = ground arith

  remaining-dead :
      (callback : Option ℕ) (p : KafkaProducer) (tr : Trace) (h : ℕ)
      → alive h tr ≡ false
      → remaining callback p tr h ≡ false
  remaining-dead callback p tr h dead =
      elim (Bool-cases (is_replaced callback p.producer_callback.send_callback h)) [
        | inl gone ↦ rw gone refl
        | inr other ↦ rw other dead
      ]

  -- The configuration and the replaced callback are different objects.
  remaining-created :
      (callback : Option ℕ) (p : KafkaProducer) (tr : Trace) (h : ℕ)
      → Owns p tr
      → (if is_replaced callback p.producer_callback.send_callback h
          then false
          else if fresh tr == h
          then true
          else alive h tr)
        ≡ (if fresh tr == h then true else remaining callback p tr h)
  remaining-created callback p tr h held = elim (Bool-cases (fresh tr == h)) [
    | inr other ↦ rw other refl
    | inl same ↦ elim (Bool-cases (is_replaced callback p.producer_callback.send_callback h)) [
      | inr kept ↦ rw (same, kept) refl
      | inl gone ↦ absurd (
          contrary refl (
            sym (ap (λ i. alive i tr) (sym (==→≡ same)) ∙ fresh-dead tr held)
            ∙ is_replaced-alive callback p.producer_callback.send_callback h tr held.live_s gone))
    ]
  ]
    where
      ==→≡ : {a b : ℕ} → (a == b) ≡ true → a ≡ b
      ==→≡ q = ground arith

  replaced_calls :
      (s : Option ℕ) (tr : Trace)
      → let tr' : Trace = elim s [ some h ↦ delete_send_callback h ∷ tr | none ↦ tr ] in
        (outbox tr' ≡ outbox tr) × (length tr ≤ length tr')
  replaced_calls none tr = (refl, omega arith)
  replaced_calls (some h) tr = (refl, omega arith)

  registered_calls :
      (conf : ℕ) (callback : Option ℕ) (k : ProducerCallback) (tr : Trace)
      → let tr' = (register env conf callback k tr).1 in
        (outbox tr' ≡ outbox tr) × (length tr ≤ length tr')
  unfolding set_send_callback
  registered_calls conf none k tr = (refl, omega arith)
  registered_calls conf (some n) k tr = replaced_calls k.send_callback tr

  pub init_kafka-Started :
      (custom : Map) (brokers agent : Text) (callback : Option ℕ) (time_out : ℤ)
      (p p' : KafkaProducer) (tr tr' : Trace)
      → Owns p tr
      → Registrable callback p.producer none p.producer_callback.send_callback tr
      → init_kafka env custom brokers agent callback time_out p tr ≡ (true, p', tr')
      → Started callback p tr p' tr'
  unfolding created destroyed
  init_kafka-Started custom brokers agent callback time_out p p' tr tr' held new e =
      elim (Start.init_kafka-Starts env custom brokers agent callback p tr time_out) [
        | inr (refused, f) ↦
            (contrary refl (sym f ∙ ap (λ (r : Bool × KafkaProducer × Trace). r.0) e))
        | inl (starts, f) ↦
            subst (λ (r : Bool × KafkaProducer × Trace). Started callback p tr r.1 r.2) (sym f ∙ e)
              record {
                object = fresh (Start.configured_calls env custom brokers agent callback p tr);
                configuration = fresh tr;
                has_object = refl;
                polled_object = refl;
                has_configuration = refl;
                new_object = remaining-dead callback p tr _ (
                    later-dead _ tr held (
                      omega (
                        arith,
                        (registered_calls (fresh tr) callback p.producer_callback
                            (before_register tr)).1,
                        all_set-longer env (fresh tr) custom (
                            mandatory env (fresh tr) brokers callback p.producer_callback
                              (conf_create (fresh tr) ∷ tr)),
                      )));
                new_configuration = remaining-dead callback p tr (fresh tr) (fresh-dead tr held);
                owns =
                    subst (λ (r : Bool × KafkaProducer × Trace). Owns r.1 r.2) f
                      (init_kafka-Owns env custom brokers agent callback time_out p tr new held);
                messages =
                    all_set-outbox env (fresh tr) custom _
                    ∙ (registered_calls (fresh tr) callback p.producer_callback
                        (before_register tr)).0;
                objects = λ h.
                    alive-neutral _ h _ refl refl
                    ∙ created_calls-objects env custom brokers agent callback p tr h
                    ∙ ap
                        (λ b.
                          if fresh (Start.configured_calls env custom brokers agent callback p tr)
                            == h
                          then true
                          else b)
                        (remaining-created callback p tr h held);
              }
      ]
    where
      before_register : Trace → Trace
      before_register tr =
          conf_set_event_cb (fresh tr) conf_ok
          ∷ conf_set (fresh tr) bootstrap_servers (c_string brokers) conf_ok
          ∷ conf_create (fresh tr)
          ∷ tr
