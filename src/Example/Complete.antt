-- ===== src/Example/Complete.antt =====
-- A run of the example in which the library plays along: it comes to its end, and leaves nothing.
use kafka_client.Base.{ℕ, suc, ◌^◌, ◌<◌, true, false, none, some, List, [], ◌∷◌}
use kafka_client.Base.Int.{ℤ, pos}
use kafka_client.Base.Text.{Text, codes}
use kafka_client.Kafka.{
  Env, Trace, fresh, headers_create, outq_len, thread_create, subscribe, wait_destroyed,
  delete_send_callback,
}
use kafka_client.Producer.State as Producer
use kafka_client.Producer.State.{KafkaProducer, set_topic}
use kafka_client.Producer.Clock.{milliseconds}
use kafka_client.Producer.Send.{produce_with}
use kafka_client.Producer.Send.Outcome.{prepared}
use kafka_client.Producer.Lifecycle.{stop_polling, delete_objects, thread_id}
use kafka_client.Producer.Lifecycle.Start as ProducerStart
use kafka_client.Producer.Lifecycle.Frame.{Drains}
use kafka_client.Producer.Lifecycle.Closing.{polled}
use kafka_client.Consumer.State.{KafkaConsumer}
use kafka_client.Consumer.Lifecycle.Start as ConsumerStart
use kafka_client.Consumer.Lifecycle.Frame.{closing_calls}
use kafka_client.Example.{brokers, config_map, config_consume_map, example_message}
use kafka_client.Example.Runs.{after_rounds, Gives}

abbrev pub agent : Text
agent = codes "test-agent"

abbrev pub topics : List Text
topics = codes "ppp_thumb" ∷ []

abbrev pub group : Text
group = codes "test-consumer"

module _ (env : Env) (junk_thread : ℕ) (junk : ℤ) where
  abbrev pub new_producer : KafkaProducer × Trace
  new_producer = Producer.construct junk_thread []

  -- The handles of the producer and of its configuration.
  abbrev pub producer : ℕ
  producer = fresh (
      ProducerStart.configured_calls env config_map brokers agent none new_producer.0
        new_producer.1)

  abbrev pub producer_conf : ℕ
  producer_conf = fresh new_producer.1

  abbrev pub start_calls : Trace
  start_calls =
      ProducerStart.created_calls env config_map brokers agent none new_producer.0 new_producer.1

  -- The calls up to the end of the producer's `initKafka`, and the object then.
  abbrev pub initialised_calls : Trace
  initialised_calls =
      thread_create (env.thread_create start_calls)
        (thread_id env (env.thread_create start_calls) start_calls)
      ∷ start_calls

  abbrev pub initialised_producer : KafkaProducer
  initialised_producer =
      ProducerStart.running_object env config_map brokers agent none new_producer.0 new_producer.1
        (pos 1000)

  abbrev pub named_producer : KafkaProducer
  named_producer = record initialised_producer { topic = codes "ppp_thumb" }

  -- The calls up to the end of `send`.
  abbrev pub sent_calls : Trace
  sent_calls =
      let (hs, tr) = prepared env named_producer example_message initialised_calls in
      (produce_with env example_message (codes "ppp_thumb") (fresh initialised_calls) hs producer
        tr).1

  module _ (n : ℕ) where
    -- The calls up to the end of the producer's `closeKafka`, with `n` rounds of its loop.
    abbrev pub closed_calls : Trace
    closed_calls =
        delete_objects env (some producer) (some producer_conf)
          (stop_polling env (record named_producer { is_debug_mode = true })
            (outq_len producer 0 ∷ polled env n producer sent_calls)).1

    abbrev pub consumer : ℕ
    consumer =
        fresh
          (ConsumerStart.configured_calls env config_consume_map brokers topics group closed_calls)

    abbrev pub consumer_calls : Trace
    consumer_calls =
        ConsumerStart.created_calls env config_consume_map brokers topics group closed_calls

    -- The calls up to the end of the consumer's `initKafka`, and the object then.
    abbrev pub subscribed_calls : Trace
    subscribed_calls =
        subscribe consumer topics (env.subscribe consumer_calls topics) ∷ consumer_calls

    abbrev pub subscribed_consumer : KafkaConsumer
    subscribed_consumer = record {
      brokers = brokers;
      consumer_id = group;
      topics = [];
      consumer = some consumer;
      is_debug_mode = false;
      poll_period = pos 5000;
      global_conf = some (fresh closed_calls);
    }

    -- The calls up to the end of the consumer's destructor, with `k` messages.
    abbrev pub consumer_ended : ℕ → Trace
    consumer_ended k =
        wait_destroyed (pos 5000)
        ∷ closing_calls consumer (fresh closed_calls)
            (after_rounds env (suc k) consumer subscribed_consumer subscribed_calls)

    -- All calls.
    abbrev pub all_calls : ℕ → Trace
    all_calls k = delete_send_callback 1 ∷ wait_destroyed (pos 5000) ∷ consumer_ended k

    -- The library accepts both configurations and creates a producer and a consumer, the thread is
    -- started, the time is one that the code can print, the queue runs empty after `n` rounds, and
    -- there are `k` messages that can be read and then an error.
    pub record PlaysAlong (k : ℕ) : Type 0 where
      pub starts :
          ProducerStart.Starts env config_map brokers agent none new_producer.0 new_producer.1
      pub clock :
          milliseconds
            (env.gettimeofday (headers_create (fresh initialised_calls) ∷ initialised_calls) 0)
          < 2 ^ 63
      pub drains : Drains env n producer sent_calls
      pub subscribes :
          ConsumerStart.Subscribes env config_consume_map brokers topics group closed_calls
      pub gives : Gives env k consumer subscribed_consumer subscribed_calls
