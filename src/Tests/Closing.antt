-- ===== src/Tests/Closing.antt =====
-- The life of a producer: its configuration, its polling thread, and `closeKafka`.
use kafka_client.Base.{ℕ, ◌≤◌, ◌≡◌, refl, ◌⊎◌, true, false, none, some, [], ◌∷◌, arith, suc, ◌-◌}
use kafka_client.Base.Int.{pos}
use kafka_client.Kafka.{
  Trace, outq_len, thread_join, ok, alive, conf_create, new_send_callback, needed, Env, poll,
  delete_conf, delete_producer,
}
use kafka_client.Config.{set_all}
use kafka_client.Config.Order.{all_set, AllAccepted, Stopped, set_all-stops}
use kafka_client.Producer.State.{KafkaProducer, construct}
use kafka_client.Producer.Lifecycle.Progress.{Progress, close_kafka-Progress}
use kafka_client.Producer.Lifecycle.{close_kafka, stop_polling, start_polling}
use kafka_client.Producer.Lifecycle.Owned.{Owns}
use kafka_client.Producer.Lifecycle.Closing.{polled, start_polling_failed}
use kafka_client.Tests.{env, refusing, custom, running_trace, running_producer, running-Owns}

abbrev constructed_producer : KafkaProducer × Trace
constructed_producer = construct 0 []

start_polling_failed_example :
    let (b, p, _) = start_polling refusing 3 (pos 100) running_producer running_trace in
    (b ≡ true)
    × (p.event_poll.run ≡ true)
    × ((stop_polling refusing p running_trace).1 ≡ thread_join 99 ∷ running_trace)
start_polling_failed_example =
    start_polling_failed refusing 3 10 (pos 100) running_producer running_trace running_trace refl
      (omega arith)

set_all-stops_example :
    ((set_all refusing 2 custom running_trace ≡ (true, all_set refusing 2 custom running_trace))
      × AllAccepted refusing 2 custom running_trace)
    ⊎ (((set_all refusing 2 custom running_trace).0 ≡ false)
        × Stopped refusing 2 custom running_trace (set_all refusing 2 custom running_trace).1)
set_all-stops_example = set_all-stops refusing 2 custom running_trace

-- A producer whose `initKafka` has failed.
abbrev unopened : KafkaProducer
unopened = record running_producer {
  producer = none;
  event_poll = record (running_producer.event_poll) { run = false };
}

abbrev unopened_trace : Trace
unopened_trace = conf_create 2 ∷ new_send_callback 1 ∷ []

unopened-Owns : Owns unopened unopened_trace
unfolding alive needed
unopened-Owns = record {
  safe = (tt, (tt, tt));
  numbered = λ h l. ground arith;
  live_o = tt;
  live_c = refl;
  live_s = refl;
  apart_oc = tt;
  apart_os = tt;
  apart_cs = omega arith;
}

-- Two messages in the queue, of which every poll reports one.
abbrev pub polls : Trace → ℕ
polls [] = 0
polls (poll h t ∷ tr) = suc (polls tr)
polls (c ∷ tr) = polls tr

abbrev pub reporting : Env
reporting = record env { outq_len = λ tr. 2 - polls tr }

abbrev pub polls_left : Trace → ℕ
polls_left tr = 2 - polls tr

reporting-Progress : Progress reporting polls_left 3
reporting-Progress tr lt = omega arith

close_kafka-Progress_example :
    (n : ℕ) × (n ≤ 2)
    × (p' : KafkaProducer) × (tr' : Trace) × (close_kafka reporting 3 running_producer running_trace
        ≡ ok (p', tr'))
    × (tr'
        ≡ delete_conf 2
          ∷ delete_producer 3
          ∷ thread_join 4
          ∷ outq_len 3 0
          ∷ polled reporting n 3 running_trace)
    × (p'.producer ≡ none)
    × (p'.global_conf ≡ none)
    × Owns p' tr'
    × (alive 3 tr' ≡ false)
    × ((j : ℕ) → running_producer.global_conf ≡ some j → alive j tr' ≡ false)
close_kafka-Progress_example =
    close_kafka-Progress reporting polls_left 3 3 running_producer running_trace reporting-Progress
      running-Owns refl (omega arith)
