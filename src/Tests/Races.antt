-- ===== src/Tests/Races.antt =====
-- A producer that is initialised, sends and is closed while its thread polls; one that is
-- initialised twice; and one that is destroyed without being closed.
use kafka_client.Base.{
  ℕ, ◌≤◌, ◌≡◌, refl, Bool, true, false, none, some, [], ◌∷◌, ◌≢◌, arith, ◌==◌, if◌then◌else◌,
}
use kafka_client.Base.Int.{pos}
use kafka_client.Base.Text.{codes}
use kafka_client.Kafka.{
  conf_set, conf_set_dr_cb, conf_set_event_cb, conf_create, new_send_callback, producer_create,
  conf_ok, needed, thread_create, Trace, poll, outq_len, thread_join, delete_producer, delete_conf,
  IsSafe, alive, delete_send_callback, wait_destroyed,
}
use kafka_client.Producer.State.{KafkaProducer, new_event_poll}
use kafka_client.Producer.Lifecycle.{init_kafka, close_kafka}
use kafka_client.Producer.Lifecycle.Owned.{Owns}
use kafka_client.Producer.Threads.{
  initialised, entered, asking, stopping, waiting, deleting, freeing, returned, testing, calling,
  exited, polling, Threads, faults, thread_next, close_at, ask, delete_if, free_if, by_closer,
  by_poller, Reach, start, later, gone,
}
use kafka_client.Producer.Threads.Invariant.{Opened, state}
use kafka_client.Producer.Threads.Schedule.{at}
use kafka_client.Producer.Session.{outbox, Session, opened, background}
use kafka_client.Producer.Threads.Life.{init_kafka-closing}
use kafka_client.Producer.Threads.Dangling.{destruct_unclosed, init_kafka_twice, deleted_calls}
use kafka_client.Tests.{env, custom}

abbrev pub created_calls : Trace
created_calls =
    producer_create 2 (some 8)
    ∷ conf_set 2 (codes "linger.ms") (codes "5") conf_ok
    ∷ conf_set 2 (codes "acks") (codes "all") conf_ok
    ∷ conf_set_dr_cb 2 conf_ok
    ∷ conf_set_event_cb 2 conf_ok
    ∷ conf_set 2 (codes "bootstrap.servers") (codes "localhost:9092") conf_ok
    ∷ conf_create 2
    ∷ new_send_callback 1
    ∷ []

abbrev pub started_calls : Trace
started_calls = thread_create (pos 0) 9 ∷ created_calls

abbrev pub started_producer : KafkaProducer
started_producer = record {
  brokers = codes "localhost:9092";
  user_agent = codes "tests";
  topic = [];
  producer = some 8;
  is_debug_mode = false;
  event_poll = record { producer = some 8; run = true; time_out = pos 100 };
  polling_thread_id = 9;
  global_conf = some 2;
  producer_callback = record { send_callback = some 1; is_default_callback = true };
}

abbrev pub new_producer : KafkaProducer
new_producer = record started_producer {
  brokers = [];
  user_agent = [];
  producer = none;
  event_poll = new_event_poll;
  polling_thread_id = 0;
  global_conf = none;
}

pub started :
    init_kafka env custom
      (codes "localhost:9092")
      (codes "tests")
      none
      (pos 100)
      new_producer
      (new_send_callback 1 ∷ [])
    ≡ (true, started_producer, started_calls)
unfolding init_kafka kafka_client.Producer.Configure.set_producer_configuration
    kafka_client.Producer.Configure.finish_configuration kafka_client.Config.set_all
    kafka_client.Producer.Lifecycle.create_producer kafka_client.Producer.Lifecycle.start_polling
    kafka_client.Base.Text.c_string
started = refl

pub new-Owns : Owns new_producer (new_send_callback 1 ∷ [])
unfolding alive needed
new-Owns = record {
  safe = (tt, tt);
  numbered = λ h l. ground arith;
  live_o = tt;
  live_c = tt;
  live_s = refl;
  apart_oc = tt;
  apart_os = tt;
  apart_cs = tt;
}

-- The thread polls once in the session, and once while the queue is drained.
abbrev pub session_calls : Trace
session_calls = poll 8 (pos 100) ∷ started_calls

pub session : Session env started_producer started_calls [] started_producer session_calls
session = background 8 refl refl opened

abbrev pub running : Opened
running = record {
  object = 8;
  configuration = 2;
  time_out = pos 100;
  client = started_producer;
  trace = session_calls;
}

abbrev pub joined_calls : Trace
joined_calls = thread_join 9 ∷ outq_len 8 0 ∷ poll 8 (pos 100) ∷ session_calls

abbrev pub left : Threads
left = state running returned (delete_conf 2 ∷ delete_producer 8 ∷ joined_calls) exited []

pub closing_run : Reach env (at env [] entered started_producer session_calls testing) left
unfolding close_at thread_next ask delete_if free_if
closing_run =
    later {t = state running freeing (delete_producer 8 ∷ joined_calls) exited []}
      (later {t = state running deleting joined_calls exited []}
        (later
          {t = state running waiting (outq_len 8 0 ∷ poll 8 (pos 100) ∷ session_calls) exited []}
          (later
            {t = state running waiting (outq_len 8 0 ∷ poll 8 (pos 100) ∷ session_calls) testing []}
            (later
              {t = state running stopping (outq_len 8 0 ∷ poll 8 (pos 100) ∷ session_calls) testing
                []}
              (later {t = state running asking (poll 8 (pos 100) ∷ session_calls) testing []}
                (later {t = state running asking session_calls (polling 8 (pos 100)) []}
                  (later {t = state running entered session_calls (polling 8 (pos 100)) []}
                    (later {t = state running entered session_calls calling []}
                      (later start (by_poller calling session_calls refl))
                      (by_poller (polling 8 (pos 100)) session_calls refl))
                    (by_closer refl))
                  (by_poller testing (poll 8 (pos 100) ∷ session_calls) refl))
                (by_closer refl))
              (by_closer refl))
            (by_poller exited (outq_len 8 0 ∷ poll 8 (pos 100) ∷ session_calls) refl))
          (by_closer refl))
        (by_closer refl))
      (by_closer refl)

init_kafka-closing_example :
    (exited ≡ exited)
    × ((h : ℕ) → alive h left.trace ≡ alive h (new_send_callback 1 ∷ []))
    × (left.client.producer ≡ none)
    × (left.client.global_conf ≡ none)
    × Owns left.client left.trace
    × (outbox left.trace ≡ [])
init_kafka-closing_example =
    init_kafka-closing env custom (codes "localhost:9092") (codes "tests") none (pos 100) 9 []
      new_producer started_producer started_producer (new_send_callback 1 ∷ []) created_calls
      session_calls [] left new-Owns tt tt started session closing_run refl

destruct_unclosed_example :
    (t : Threads) × Reach env
      (initialised started_producer started_calls
        (at env [] returned new_producer (new_send_callback 1 ∷ []) exited))
      t
    × (t.point ≡ gone)
    × (t.exists ≡ false)
    × (t.trace ≡ delete_send_callback 1 ∷ wait_destroyed (pos 5000) ∷ started_calls)
    × (t.client.event_poll.run ≡ true)
    × (thread_next env t.poller t.client t.exists t.trace ≡ faults)
destruct_unclosed_example =
    destruct_unclosed env custom (codes "localhost:9092") (codes "tests") none (pos 100) 9
      new_producer started_producer (new_send_callback 1 ∷ []) created_calls started

-- The same object is initialised again.
abbrev created_again : Trace
created_again =
    producer_create 10 (some 16)
    ∷ conf_set 10 (codes "linger.ms") (codes "5") conf_ok
    ∷ conf_set 10 (codes "acks") (codes "all") conf_ok
    ∷ conf_set_dr_cb 10 conf_ok
    ∷ conf_set_event_cb 10 conf_ok
    ∷ conf_set 10 (codes "bootstrap.servers") (codes "localhost:9092") conf_ok
    ∷ conf_create 10
    ∷ started_calls

abbrev started_again_producer : KafkaProducer
started_again_producer = record started_producer {
  producer = some 16;
  event_poll = record { producer = some 16; run = true; time_out = pos 100 };
  polling_thread_id = 17;
  global_conf = some 10;
}

started_again :
    init_kafka env custom
      (codes "localhost:9092")
      (codes "tests")
      none
      (pos 100)
      started_producer
      started_calls
    ≡ (true, started_again_producer, thread_create (pos 0) 17 ∷ created_again)
unfolding init_kafka kafka_client.Producer.Configure.set_producer_configuration
    kafka_client.Producer.Configure.finish_configuration kafka_client.Config.set_all
    kafka_client.Producer.Lifecycle.create_producer kafka_client.Producer.Lifecycle.start_polling
    kafka_client.Base.Text.c_string
started_again = refl

init_kafka_twice_example :
    (h : ℕ) × (some 16 ≡ some h)
    × (t : Threads) × Reach env
        (initialised started_again_producer (thread_create (pos 0) 17 ∷ created_again) (
          initialised started_producer started_calls
            (at env [] entered new_producer (new_send_callback 1 ∷ []) exited)))
        t
    × (t.trace ≡ poll h (pos 100) ∷ deleted_calls h 17 (thread_create (pos 0) 17 ∷ created_again))
    × (t.poller ≡ exited)
    × (t.others ≡ testing ∷ exited ∷ [])
    × IsSafe (deleted_calls h 17 (thread_create (pos 0) 17 ∷ created_again))
    × (¬ IsSafe t.trace)
init_kafka_twice_example =
    init_kafka_twice env custom custom (codes "localhost:9092") (codes "localhost:9092")
      (codes "tests") (codes "tests") none none (pos 100) (pos 100) 9 17 new_producer
      started_producer started_again_producer (new_send_callback 1 ∷ []) created_calls created_again
      new-Owns tt started tt started_again refl
