-- ===== src/Example/Ends.antt =====
-- The example comes to its end if the library plays along, and leaves no object.
use kafka_client.Base.{
  ℕ, ◌<◌, ◌^◌, ◌≡◌, refl, sym, inl, inr, Bool, true, false, none, some, ◌∷◌, arith, ap, ◌∙◌,
}
use mathlib.Core.Option.{some-injective}
use kafka_client.Base.Int.{ℤ, pos}
use kafka_client.Base.Text.{codes}
use kafka_client.Kafka.{Env, ok, fresh, wait_destroyed, Trace}
use kafka_client.Kafka.{headers_create}
use kafka_client.Callback.Delivery as Delivery
use kafka_client.Producer.State as Producer
use kafka_client.Producer.State.{KafkaProducer, set_topic}
use kafka_client.Producer.Lifecycle.{release, stop_polling}
use kafka_client.Producer.Send.{send, produce_with}
use kafka_client.Producer.Send.Outcome.{prepared, send_parts}
use kafka_client.Producer.Lifecycle as ProducerLifecycle
use kafka_client.Producer.Lifecycle.Start as ProducerStart
use kafka_client.Producer.Lifecycle.Frame.{drain-Drains, Drains}
use kafka_client.Producer.Clock.{milliseconds}
use kafka_client.Consumer.Lifecycle.Frame.{closing_calls}
use kafka_client.Consumer.State.{KafkaConsumer}
use kafka_client.Consumer.State as Consumer
use kafka_client.Consumer.Lifecycle as ConsumerLifecycle
use kafka_client.Consumer.Lifecycle.Start as ConsumerStart
use kafka_client.Example.Runs.{consume_all-Gives}
use kafka_client.Example.{
  brokers, config_map, example_message, send_and_close, run_consumer, run, run_initialised,
  consume_and_close, nothing, config_consume_map, consume_all,
}
use kafka_client.Example.Complete.{
  agent, new_producer, producer, initialised_calls, initialised_producer, named_producer,
  sent_calls, closed_calls, consumer_ended, consumer, subscribed_consumer, subscribed_calls,
  all_calls, PlaysAlong, topics, group,
}

module _ (env : Env) (junk_thread : ℕ) (junk : ℤ) where
  pub initialises :
      ProducerStart.Starts env config_map brokers agent none
        (new_producer env junk_thread junk).0
        (new_producer env junk_thread junk).1
      → ProducerLifecycle.init_kafka env config_map brokers agent none
          (pos 1000)
          (new_producer env junk_thread junk).0
          (new_producer env junk_thread junk).1
        ≡ (true, initialised_producer env junk_thread junk, initialised_calls env junk_thread junk)
  initialises starts =
      elim (ProducerStart.init_kafka-Starts env config_map brokers agent none
        (new_producer env junk_thread junk).0 (new_producer env junk_thread junk).1 (pos 1000)) [
          | inl (s, e) ↦ e
          | inr (refused, e) ↦ absurd (refused starts)
        ]

  -- The object after `closeKafka`.
  abbrev pub closed_producer : KafkaProducer
  closed_producer = record (named_producer env junk_thread junk) {
    is_debug_mode = true;
    producer = none;
    global_conf = none;
    event_poll = record {
      producer = some (producer env junk_thread junk);
      run = false;
      time_out = pos 1000;
    };
  }

  -- The message fits its buffers, so that it is handed over.
  sends :
      milliseconds (
          env.gettimeofday
            (headers_create (fresh (initialised_calls env junk_thread junk))
              ∷ initialised_calls env junk_thread junk)
            0)
        < 2 ^ 63
      → (b : Bool) × (send env
            (named_producer env junk_thread junk)
            example_message
            (initialised_calls env junk_thread junk)
          ≡ ok (b, sent_calls env junk_thread junk))
  unfolding example_message
  sends clock =
      elim (send_parts env (named_producer env junk_thread junk) example_message
        (initialised_calls env junk_thread junk) clock) [
          | inl (large, e) ↦ absurd (large (omega arith))
          | inr (inl (fits, missing, e)) ↦ absurd (some_none missing)
          | inr (inr (fits, h, found, e)) ↦ (
            _,
            e
                ∙ ap
                    (λ (j : ℕ). ok (
                      produce_with env example_message (codes "ppp_thumb")
                        (fresh (initialised_calls env junk_thread junk))
                        (prepared env (named_producer env junk_thread junk) example_message
                          (initialised_calls env junk_thread junk)).0
                        j
                        (prepared env (named_producer env junk_thread junk) example_message
                          (initialised_calls env junk_thread junk)).1))
                    (some-injective h (producer env junk_thread junk) (sym found)),
          )
        ]
    where
      some_none : {x : ℕ} → some x ≡ none → ⊥
      some_none p = cc

  -- With the queue empty after `n` rounds.
  closes :
      (n fuel : ℕ)
      → Drains env n (producer env junk_thread junk) (sent_calls env junk_thread junk)
      → n < fuel
      → ProducerLifecycle.close_kafka env fuel
          (Producer.set_debug_mode true (named_producer env junk_thread junk))
          (sent_calls env junk_thread junk)
        ≡ ok (closed_producer, closed_calls env junk_thread junk n)
  unfolding ProducerLifecycle.close_kafka release stop_polling Producer.set_debug_mode
  closes n fuel drains lt =
      rw
        (drain-Drains env fuel n (producer env junk_thread junk) (sent_calls env junk_thread junk)
          drains lt)
        refl

  pub sends_and_closes :
      (n fuel k : ℕ)
      → PlaysAlong env junk_thread junk n k
      → n < fuel
      → send_and_close env fuel
          (initialised_producer env junk_thread junk)
          (initialised_calls env junk_thread junk)
        ≡ ok (closed_producer, closed_calls env junk_thread junk n)
  unfolding send_and_close set_topic
  sends_and_closes n fuel k along lt =
      rw ((sends along.clock).1, closes n fuel along.drains lt) refl

  -- A consumer with its configuration, whose loop ends.
  closes_after :
      (rounds h g : ℕ) (c : KafkaConsumer) (tr tr' : Trace)
      → c.consumer ≡ some h
      → c.global_conf ≡ some g
      → consume_all env rounds c nothing tr ≡ ok tr'
      → consume_and_close env rounds (true, c, tr)
        ≡ ok (wait_destroyed (pos 5000) ∷ closing_calls h g tr')
  unfolding consume_and_close Consumer.set_debug_mode ConsumerLifecycle.close_kafka
      ConsumerLifecycle.destruct
  closes_after rounds h g c tr tr' found configured e = rw (e, found, configured) refl

  pub subscribes :
      (n k : ℕ)
      → PlaysAlong env junk_thread junk n k
      → ConsumerLifecycle.init_kafka env config_consume_map brokers topics group
          (pos 5000)
          (Consumer.construct junk)
          (closed_calls env junk_thread junk n)
        ≡ (
          true,
          subscribed_consumer env junk_thread junk n,
          subscribed_calls env junk_thread junk n,
        )
  unfolding Consumer.construct
  subscribes n k along =
      elim (ConsumerStart.init_kafka-Subscribes env config_consume_map brokers topics group
        (closed_calls env junk_thread junk n) (pos 5000) (Consumer.construct junk)) [
          | inr (refused, e) ↦ absurd (refused along.subscribes)
          | inl (s, e) ↦ e
        ]

  consumes :
      (n rounds k : ℕ)
      → PlaysAlong env junk_thread junk n k
      → k < rounds
      → run_consumer env junk rounds (closed_calls env junk_thread junk n)
        ≡ ok (consumer_ended env junk_thread junk n k)
  unfolding run_consumer
  consumes n rounds k along lt =
      ap (consume_and_close env rounds) (subscribes n k along)
      ∙ closes_after rounds (consumer env junk_thread junk n)
          (fresh (closed_calls env junk_thread junk n)) (subscribed_consumer env junk_thread junk n)
          (subscribed_calls env junk_thread junk n) _ refl refl
          (consume_all-Gives env rounds k (consumer env junk_thread junk n)
            (subscribed_consumer env junk_thread junk n) nothing
            (subscribed_calls env junk_thread junk n) refl along.gives lt)

  pub runs :
      (fuel rounds n k : ℕ)
      → PlaysAlong env junk_thread junk n k
      → n < fuel
      → k < rounds
      → run env junk_thread junk fuel rounds ≡ ok (all_calls env junk_thread junk n k)
  unfolding run run_initialised ProducerLifecycle.destruct Delivery.destruct Delivery.construct
      Producer.construct
  runs fuel rounds n k along drained consumed =
      rw
        (
          initialises along.starts,
          sends_and_closes n fuel k along drained,
          consumes n rounds k along consumed,
        )
        refl
