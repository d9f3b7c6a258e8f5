-- ===== src/Tests/Applications.antt =====
-- Applications that use a producer and then a consumer, and the two side by side.
use kafka_client.Base.{◌≡◌, refl, Bool, true, none, [], ◌∷◌, ◌≢◌}
use kafka_client.Base.Int.{pos}
use kafka_client.Base.Text.{codes}
use kafka_client.Kafka.{
  Trace, Result, ok, fault, running, IsSafe, new_send_callback, poll, outq_len, thread_join,
  delete_producer, delete_conf,
}
use kafka_client.Ownership.{Holds}
use kafka_client.Ownership.Frame.{SameObjects}
use kafka_client.Producer.Lifecycle.Owned.{Owns}
use kafka_client.Consumer.State.{KafkaConsumer}
use kafka_client.Consumer.Lifecycle.{init_kafka, close_kafka}
use kafka_client.Consumer.Session as Consumer
use kafka_client.Application.{Uses, unused, by_first, by_second}
use kafka_client.Application.Clients.{producers, consumers, produced, consumed, Uses-SameObjects}
use kafka_client.Application.Both.{Both}
use kafka_client.Application.Interleaved.{
  Runs, constructed, started as thread_started, thread_stepped, consumer_initialised,
  producer_closed, Runs-Both,
}
use kafka_client.Producer.Threads.{
  entered, asking, stopping, waiting, deleting, freeing, returned, testing, calling, exited,
  polling, Threads, faults, thread_next, close_at, ask, delete_if, free_if, by_closer, by_poller,
  Reach, start, later,
}
use kafka_client.Producer.Threads.Invariant.{Opened, state}
use kafka_client.Producer.Threads.Schedule.{at}
use kafka_client.Producer.State as Producer
use kafka_client.Producer.State.{KafkaProducer}
use kafka_client.Consumer.State as Consumers
use kafka_client.Tests.{env, custom, running_consumer, nothing_received}
use kafka_client.Tests.Races as Races

abbrev new_consumer : KafkaConsumer
new_consumer = record running_consumer { consumer = none; global_conf = none }

abbrev first_calls : Trace
first_calls = new_send_callback 1 ∷ []

abbrev started : Bool × KafkaConsumer × Trace
started =
    init_kafka env custom (codes "localhost:9092") (codes "jobs" ∷ []) (codes "group") (pos 1000)
      new_consumer Races.left.trace

abbrev left_of : Result (KafkaConsumer × Trace) → KafkaConsumer × Trace
left_of (ok r) = r
left_of (fault e) = (new_consumer, [])
left_of running = (new_consumer, [])

abbrev left : KafkaConsumer × Trace
left = left_of (close_kafka started.1 started.2)

started_lem : started ≡ (true, started.1, started.2)
unfolding init_kafka kafka_client.Consumer.Lifecycle.set_consumer_configuration
    kafka_client.Config.set_all kafka_client.Consumer.Lifecycle.create_consumer
started_lem = refl

closed : close_kafka started.1 started.2 ≡ ok (left.0, left.1)
unfolding init_kafka kafka_client.Consumer.Lifecycle.set_consumer_configuration
    kafka_client.Config.set_all kafka_client.Consumer.Lifecycle.create_consumer close_kafka
closed = refl

new-Holds : Holds none none none first_calls
new-Holds = record {
  safe = Races.new-Owns.safe;
  numbered = Races.new-Owns.numbered;
  live_o = tt;
  live_c = tt;
  live_s = tt;
  apart_oc = tt;
  apart_os = tt;
  apart_cs = tt;
}

uses :
    Uses
      (producers env)
      (consumers env)
      Races.new_producer
      new_consumer
      first_calls
      Races.left.client
      left.0
      left.1
uses =
    by_second
      (by_first unused (
        produced custom (codes "localhost:9092") (codes "tests") (pos 100) 9 []
          Races.started_producer Races.started_producer Races.created_calls Races.session_calls []
          Races.left tt Races.started Races.session Races.closing_run refl))
      (consumed custom (codes "localhost:9092") (codes "jobs" ∷ []) (codes "group") (pos 1000) []
        nothing_received started.1 started.1 left.0 started.2 started.2 left.1 started_lem
        (Consumer.opened nothing_received) closed)

Uses-SameObjects_example :
    SameObjects first_calls left.1
    × IsSafe left.1
    × Owns Races.left.client left.1
    × Holds (left.0).consumer (left.0).global_conf none left.1
Uses-SameObjects_example =
    Uses-SameObjects env Races.new_producer Races.left.client new_consumer left.0 first_calls left.1
      Races.new-Owns new-Holds uses

-- A consumer is initialised while the producer is open, whose thread polls before and during
-- `closeKafka`.
abbrev opened_consumer : Bool × KafkaConsumer × Trace
opened_consumer =
    init_kafka env custom (codes "localhost:9092") (codes "jobs" ∷ []) (codes "group") (pos 1000)
      (Consumers.construct (pos 0)) Races.started_calls

abbrev polled_calls : Trace
polled_calls = poll 8 (pos 100) ∷ opened_consumer.2

abbrev polling_producer : Opened
polling_producer = record {
  object = 8;
  configuration = 2;
  time_out = pos 100;
  client = Races.started_producer;
  trace = polled_calls;
}

abbrev joined_calls : Trace
joined_calls = thread_join 9 ∷ outq_len 8 0 ∷ poll 8 (pos 100) ∷ polled_calls

abbrev closed_beside_consumer : Threads
closed_beside_consumer =
    state polling_producer returned (delete_conf 2 ∷ delete_producer 8 ∷ joined_calls) exited []

closing_run :
    Reach env
      (at env [] entered Races.started_producer polled_calls (polling 8 (pos 100)))
      closed_beside_consumer
unfolding close_at thread_next ask delete_if free_if
closing_run =
    let asked_calls = outq_len 8 0 ∷ poll 8 (pos 100) ∷ polled_calls in
    later {t = state polling_producer freeing (delete_producer 8 ∷ joined_calls) exited []}
      (later {t = state polling_producer deleting joined_calls exited []}
        (later {t = state polling_producer waiting asked_calls exited []}
          (later {t = state polling_producer waiting asked_calls testing []}
            (later {t = state polling_producer stopping asked_calls testing []}
              (later
                {t = state polling_producer asking (poll 8 (pos 100) ∷ polled_calls) testing []}
                (later {t = state polling_producer asking polled_calls (polling 8 (pos 100)) []}
                  (later start (by_closer refl))
                  (by_poller testing (poll 8 (pos 100) ∷ polled_calls) refl))
                (by_closer refl))
              (by_closer refl))
            (by_poller exited asked_calls refl))
          (by_closer refl))
        (by_closer refl))
      (by_closer refl)

runs :
    Runs env closed_beside_consumer.client opened_consumer.1 closed_beside_consumer.trace
      closed_beside_consumer.poller
unfolding thread_next Producer.construct
runs = producer_closed {o = polling 8 (pos 100)} closed_beside_consumer closing_run refl (
    thread_stepped (polling 8 (pos 100)) polled_calls refl (
      thread_stepped calling polled_calls refl (
        thread_stepped testing polled_calls refl (
          thread_stepped {o = calling} (polling 8 (pos 100)) opened_consumer.2 refl (
            thread_stepped calling opened_consumer.2 refl (
              consumer_initialised custom (codes "localhost:9092") (codes "jobs" ∷ [])
                (codes "group") (pos 1000)
                (thread_started custom (codes "localhost:9092") (codes "tests") (pos 100)
                  Races.started_producer 9 Races.created_calls Races.started
                  (constructed 0 (pos 0)))))))))

Runs-Both_example :
    Both closed_beside_consumer.client opened_consumer.1 closed_beside_consumer.trace
    × (thread_next env exited closed_beside_consumer.client true closed_beside_consumer.trace
        ≢ faults)
Runs-Both_example = Runs-Both runs
