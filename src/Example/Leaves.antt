-- ===== src/Example/Leaves.antt =====
-- Which objects the example has left when the library plays along.
use kafka_client.Base.{
  ℕ, suc, ◌<◌, ◌≡◌, ◌≢◌, refl, ◌∙◌, ap, inl, inr, Bool, true, false, none, some, ◌∷◌, arith, ◌==◌,
  if◌then◌else◌, Bool-cases,
}
use mathlib.Core.Path.{subst}
use kafka_client.Base.Int.{ℤ, pos}
use kafka_client.Kafka.{
  Env, Trace, ok, fresh, alive, created, destroyed, IsSafe, outq_len, delete_send_callback,
  wait_destroyed,
}
use kafka_client.Ownership.{Holds, alive-neutral}
use kafka_client.Ownership.Frame.{fresh-dead, alive-gone}
use kafka_client.Callback.Delivery as Delivery
use kafka_client.Producer.State as Producer
use kafka_client.Producer.State.{KafkaProducer}
use kafka_client.Producer.Send.Frame.{sent-SameObjects}
use kafka_client.Producer.Lifecycle.Owned.{Owns}
use kafka_client.Producer.Lifecycle.Frame.{
  created_calls-objects, polled-SameObjects, stop_polling-SameObjects, delete_objects-objects,
}
use kafka_client.Producer.Lifecycle.Reachable.{constructed, initialised, Reach-Owns}
use kafka_client.Producer.Lifecycle.Start as ProducerStart
use kafka_client.Consumer.Lifecycle.Frame.{closing_calls-objects}
use kafka_client.Consumer.Lifecycle.Outcome.{init_kafka-Holds}
use kafka_client.Consumer.State.{KafkaConsumer}
use kafka_client.Consumer.State as Consumer
use kafka_client.Consumer.Lifecycle.Frame as ConsumerFrame
use kafka_client.Example.Frame.{after_rounds-SameObjects}
use kafka_client.Example.{brokers, config_map, config_consume_map, example_message, run}
use kafka_client.Example.Safe.{send_and_close-Owns, run-IsSafe}
use kafka_client.Example.Ends.{initialises, sends_and_closes, closed_producer, subscribes, runs}
use kafka_client.Example.Complete.{
  agent, new_producer, producer, producer_conf, initialised_calls, initialised_producer,
  named_producer, sent_calls, closed_calls, PlaysAlong, consumer, subscribed_calls,
  subscribed_consumer, consumer_ended, all_calls, topics, group,
}

-- Two objects that were there and are deleted.
both_gone :
    (a b z : Bool)
    → z ≡ (if a then true else if b then true else false)
    → (if b then false else if a then false else z) ≡ false
both_gone a b z e = ground arith

module _ (env : Env) (junk_thread : ℕ) (junk : ℤ) where
  constructed-objects : (h : ℕ) → 1 ≢ h → alive h (new_producer env junk_thread junk).1 ≡ false
  unfolding Producer.construct Delivery.construct created destroyed alive
  constructed-objects h ne = ground arith

  initialised-objects :
      (h : ℕ)
      → 1 ≢ h
      → alive h (initialised_calls env junk_thread junk) ≡ (
          if producer env junk_thread junk == h
          then true
          else if producer_conf env junk_thread junk == h
          then true
          else false)
  unfolding created destroyed
  initialised-objects h ne =
      alive-neutral _ h _ refl refl
      ∙ created_calls-objects env config_map brokers agent none
          (new_producer env junk_thread junk).0 (new_producer env junk_thread junk).1 h
      ∙ ap
          (λ b.
            if producer env junk_thread junk == h
            then true
            else if producer_conf env junk_thread junk == h
            then true
            else b)
          (constructed-objects h ne)

  initialised-Owns :
      ProducerStart.Starts env config_map brokers agent none
        (new_producer env junk_thread junk).0
        (new_producer env junk_thread junk).1
      → Owns (initialised_producer env junk_thread junk) (initialised_calls env junk_thread junk)
  initialised-Owns starts =
      subst (λ (r : Bool × KafkaProducer × Trace). Owns r.1 r.2)
        (initialises env junk_thread junk starts)
        (Reach-Owns {env = env}
          (initialised config_map brokers agent none (pos 1000) tt (constructed junk_thread)))

  closed-objects :
      (n k h : ℕ)
      → PlaysAlong env junk_thread junk n k
      → 1 ≢ h
      → alive h (closed_calls env junk_thread junk n) ≡ false
  unfolding created destroyed
  closed-objects n k h along ne =
      delete_objects-objects env (producer env junk_thread junk)
        (producer_conf env junk_thread junk) h _
      ∙ both_gone (producer env junk_thread junk == h) (producer_conf env junk_thread junk == h) _ (
          stop_polling-SameObjects env
            (record (named_producer env junk_thread junk) { is_debug_mode = true }) _ h
          ∙ alive-neutral (outq_len (producer env junk_thread junk) 0) h _ refl refl
          ∙ polled-SameObjects env n (producer env junk_thread junk)
              (sent_calls env junk_thread junk) h
          ∙ sent-SameObjects env example_message (named_producer env junk_thread junk)
              (producer env junk_thread junk) (initialised_calls env junk_thread junk)
              (fresh-dead (initialised_calls env junk_thread junk) (initialised-Owns along.starts))
              h
          ∙ initialised-objects h ne)

  -- When the consumer starts, the callback of the producer is the only object.
  closed-Holds :
      (n k : ℕ)
      → PlaysAlong env junk_thread junk n k
      → Holds none none none (closed_calls env junk_thread junk n)
  closed-Holds n k along =
      let held : Owns (closed_producer env junk_thread junk) (closed_calls env junk_thread junk n) =
        send_and_close-Owns env (suc n) (initialised_producer env junk_thread junk)
          (closed_producer env junk_thread junk) (initialised_calls env junk_thread junk)
          (closed_calls env junk_thread junk n) (initialised-Owns along.starts)
          (sends_and_closes env junk_thread junk n (suc n) k along (omega arith)) in
      record {
        safe = held.safe;
        numbered = held.numbered;
        live_o = tt;
        live_c = tt;
        live_s = tt;
        apart_oc = tt;
        apart_os = tt;
        apart_cs = tt;
      }

  subscribed-Holds :
      (n k : ℕ)
      → PlaysAlong env junk_thread junk n k
      → Holds
          (some (consumer env junk_thread junk n))
          (some (fresh (closed_calls env junk_thread junk n)))
          none
          (subscribed_calls env junk_thread junk n)
  unfolding Consumer.construct
  subscribed-Holds n k along =
      subst (λ (r : Bool × KafkaConsumer × Trace). Holds (r.1).consumer (r.1).global_conf none r.2)
        (subscribes env junk_thread junk n k along)
        (init_kafka-Holds env config_consume_map brokers topics group (pos 5000)
          (Consumer.construct junk) (closed_calls env junk_thread junk n) (closed-Holds n k along))

  consumed-objects :
      (n k h : ℕ)
      → PlaysAlong env junk_thread junk n k
      → 1 ≢ h
      → alive h (consumer_ended env junk_thread junk n k) ≡ false
  unfolding created destroyed
  consumed-objects n k h along ne =
      alive-neutral _ h _ refl refl
      ∙ closing_calls-objects (consumer env junk_thread junk n)
          (fresh (closed_calls env junk_thread junk n)) h _
      ∙ both_gone (consumer env junk_thread junk n == h)
          (fresh (closed_calls env junk_thread junk n) == h) _
          (after_rounds-SameObjects env (suc k) (consumer env junk_thread junk n)
              (subscribed_consumer env junk_thread junk n) (subscribed_calls env junk_thread junk n)
              (subscribed-Holds n k along) h
            ∙ alive-neutral _ h _ refl refl
            ∙ ConsumerFrame.created_calls-objects env config_consume_map brokers topics group
                (closed_calls env junk_thread junk n) h
            ∙ ap
                (λ b.
                  if consumer env junk_thread junk n == h
                  then true
                  else if fresh (closed_calls env junk_thread junk n) == h
                  then true
                  else b)
                (closed-objects n k h along ne))

  -- If the library accepts both configurations and creates a producer and a consumer, the thread is
  -- started, the time is one that the code can print, the queue runs empty after `n` rounds of
  -- `closeKafka`, and there are `k` messages that can be read and then an error: with more fuel than
  -- `n` and more rounds than `k`, `main` comes to its end, its calls are those in `all_calls`, none
  -- of them used an object that was gone, and every object that was created is gone.
  pub run-PlaysAlong :
      (fuel rounds n k : ℕ)
      → PlaysAlong env junk_thread junk n k
      → n < fuel
      → k < rounds
      → (run env junk_thread junk fuel rounds ≡ ok (all_calls env junk_thread junk n k))
        × IsSafe (all_calls env junk_thread junk n k)
        × ((h : ℕ) → alive h (all_calls env junk_thread junk n k) ≡ false)
  unfolding created destroyed
  run-PlaysAlong fuel rounds n k along drained consumed =
      let ended = runs env junk_thread junk fuel rounds n k along drained consumed in
      (
        ended,
        run-IsSafe env junk_thread junk fuel rounds (all_calls env junk_thread junk n k) ended,
        λ h.
            alive-gone (delete_send_callback 1) 1 h
              (wait_destroyed (pos 5000) ∷ consumer_ended env junk_thread junk n k) refl refl
            ∙ elim (Bool-cases (1 == h)) [
              | inl same ↦ rw same refl
              | inr other ↦ rw other (
                  alive-neutral _ h (consumer_ended env junk_thread junk n k) refl refl
                  ∙ consumed-objects n k h along (λ e. absurd (apart other e)))
            ],
      )
    where
      apart : {h : ℕ} → (1 == h) ≡ false → 1 ≢ h
      apart e = ground arith
