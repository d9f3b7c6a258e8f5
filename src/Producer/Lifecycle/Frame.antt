-- ===== src/Producer/Lifecycle/Frame.antt =====
-- Which objects `initKafka` adds, and which `closeKafka` takes away.
use kafka_client.Base.{
  ℕ, zero, suc, ◌≡◌, refl, ◌∙◌, true, false, none, some, ◌∷◌, arith, ◌==◌, if◌then◌else◌, if-elim,
  ◌<◌, ltb, Option, Bool, ap,
}
use kafka_client.Base.Int.{pos}
use kafka_client.Base.Text.{Text}
use kafka_client.Base.Map.{Map}
use kafka_client.Kafka.{
  Env, Trace, fresh, ok, created, destroyed, alive, conf_create, producer_create, delete_producer,
  delete_conf, poll, outq_len, delete_send_callback,
}
use kafka_client.Ownership.{alive-neutral}
use kafka_client.Ownership.Frame.{SameObjects, all_set-SameObjects, alive-new, alive-gone}
use kafka_client.Callback.Delivery.{ProducerCallback, set_send_callback}
use kafka_client.Producer.State.{KafkaProducer}
use kafka_client.Producer.Configure.{register}
use kafka_client.Producer.Configure.Order.{mandatory}
use kafka_client.Producer.Lifecycle.{drain, stop_polling, delete_objects}
use kafka_client.Producer.Lifecycle.Start.{configured_calls, created_calls}
use kafka_client.Producer.Lifecycle.Closing.{polled}

-- Whether an object is the callback that a caller's callback takes the place of.
abbrev pub is_replaced : Option ℕ → Option ℕ → ℕ → Bool
is_replaced none s h = false
is_replaced (some n) none h = false
is_replaced (some n) (some s) h = s == h

module _ (env : Env) where
  replaced-objects :
      (s : Option ℕ) (n h : ℕ) (tr : Trace)
      → alive h (elim s [ some j ↦ delete_send_callback j ∷ tr | none ↦ tr ])
        ≡ (if is_replaced (some n) s h then false else alive h tr)
  unfolding created destroyed
  replaced-objects none n h tr = refl
  replaced-objects (some j) n h tr = alive-gone (delete_send_callback j) j h tr refl refl

  registered-objects :
      (conf : ℕ) (callback : Option ℕ) (k : ProducerCallback) (h : ℕ) (tr : Trace)
      → alive h (register env conf callback k tr).1
        ≡ (if is_replaced callback k.send_callback h then false else alive h tr)
  unfolding set_send_callback
  registered-objects conf none k h tr = refl
  registered-objects conf (some n) k h tr = replaced-objects k.send_callback n h tr

  mandatory-objects :
      (conf : ℕ) (brokers : Text) (callback : Option ℕ) (k : ProducerCallback) (h : ℕ) (tr : Trace)
      → alive h (mandatory env conf brokers callback k tr)
        ≡ (if is_replaced callback k.send_callback h then false else alive h tr)
  unfolding created destroyed
  mandatory-objects conf brokers callback k h tr =
      alive-neutral _ h _ refl refl
      ∙ registered-objects conf callback k h _
      ∙ ap (λ b. if is_replaced callback k.send_callback h then false else b)
          (alive-neutral _ h _ refl refl ∙ alive-neutral _ h _ refl refl)

  -- The configuration is added, and a callback may be replaced.
  pub configured_calls-objects :
      (custom : Map) (brokers agent : Text) (callback : Option ℕ) (p : KafkaProducer) (tr : Trace)
      (h : ℕ)
      → alive h (configured_calls env custom brokers agent callback p tr) ≡ (
          if is_replaced callback p.producer_callback.send_callback h
          then false
          else if fresh tr == h
          then true
          else alive h tr)
  unfolding created destroyed
  configured_calls-objects custom brokers agent callback p tr h =
      all_set-SameObjects env (fresh tr) custom _ h
      ∙ mandatory-objects (fresh tr) brokers callback p.producer_callback h
          (conf_create (fresh tr) ∷ tr)
      ∙ ap (λ b. if is_replaced callback p.producer_callback.send_callback h then false else b)
          (alive-new (conf_create (fresh tr)) (fresh tr) h tr refl refl)

  -- The producer is added too.
  pub created_calls-objects :
      (custom : Map) (brokers agent : Text) (callback : Option ℕ) (p : KafkaProducer) (tr : Trace)
      (h : ℕ)
      → alive h (created_calls env custom brokers agent callback p tr) ≡ (
          if fresh (configured_calls env custom brokers agent callback p tr) == h
          then true
          else if is_replaced callback p.producer_callback.send_callback h
          then false
          else if fresh tr == h
          then true
          else alive h tr)
  unfolding created destroyed
  created_calls-objects custom brokers agent callback p tr h =
      alive-new
        (producer_create (fresh tr)
          (some (fresh (configured_calls env custom brokers agent callback p tr))))
        (fresh (configured_calls env custom brokers agent callback p tr)) h
        (configured_calls env custom brokers agent callback p tr) refl refl
      ∙ ap
          (λ b.
            if fresh (configured_calls env custom brokers agent callback p tr) == h
            then true
            else b)
          (configured_calls-objects custom brokers agent callback p tr h)

  pub polled-SameObjects : (n h : ℕ) (tr : Trace) → SameObjects tr (polled env n h tr)
  unfolding created destroyed
  polled-SameObjects zero h tr j = refl
  polled-SameObjects (suc n) h tr j =
      polled-SameObjects n h _ j ∙ alive-neutral _ j _ refl refl ∙ alive-neutral _ j tr refl refl

  pub stop_polling-SameObjects :
      (p : KafkaProducer) (tr : Trace) → SameObjects tr (stop_polling env p tr).1
  unfolding stop_polling created destroyed
  stop_polling-SameObjects p tr h =
      if-elim {A = KafkaProducer × Trace} (λ r. alive h r.1 ≡ alive h tr) p.event_poll.run
        (if-elim (λ (t : Trace). alive h t ≡ alive h tr) (p.polling_thread_id == 0) refl
          (alive-neutral _ h tr refl refl))
        refl

  pub delete_objects-objects :
      (o g h : ℕ) (tr : Trace)
      → alive h (delete_objects env (some o) (some g) tr)
        ≡ (if g == h then false else if o == h then false else alive h tr)
  unfolding created destroyed
  delete_objects-objects o g h tr = ground (
    arith,
    alive-gone (delete_producer o) o h tr refl refl,
    alive-gone (delete_conf g) g h (delete_producer o ∷ tr) refl refl,
  )

  -- The queue runs empty after exactly `n` rounds.
  abbrev pub Drains : ℕ → ℕ → Trace → Type 0
  Drains zero h tr = env.outq_len tr ≡ 0
  Drains (suc n) h tr =
      (ltb 0 (env.outq_len tr) ≡ true)
      × Drains n h (poll h (pos 500) ∷ outq_len h (env.outq_len tr) ∷ tr)

  pub drain-Drains :
      (fuel n h : ℕ) (tr : Trace)
      → Drains n h tr
      → n < fuel
      → drain env fuel (some h) tr ≡ ok (outq_len h 0 ∷ polled env n h tr)
  unfolding drain
  drain-Drains zero n h tr d lt = absurd (omega arith)
  drain-Drains (suc fuel) zero h tr d lt = rw d refl
  drain-Drains (suc fuel) (suc n) h tr d lt = rw d.0 (drain-Drains fuel n h _ d.1 (omega arith))
