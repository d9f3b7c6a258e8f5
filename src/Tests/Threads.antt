-- ===== src/Tests/Threads.antt =====
-- A producer whose polling thread takes its steps between those of `closeKafka`.
use kafka_client.Base.{◌≤◌, ◌≡◌, refl, true, [], ◌∷◌, ◌≢◌, arith}
use kafka_client.Base.Int.{pos}
use kafka_client.Kafka.{
  Trace, poll, outq_len, thread_join, delete_producer, delete_conf, IsSafe, ok,
}
use kafka_client.Ownership.Frame.{SameObjects}
use kafka_client.Producer.Lifecycle.{init_kafka, close_kafka}
use kafka_client.Producer.Polling as Polling
use kafka_client.Producer.Threads.{
  entered, asking, stopping, waiting, deleting, freeing, returned, testing, calling, exited,
  polling, Threads, faults, thread_next, emptying, close_next, close_at, ask, delete_if, free_if,
  by_closer, by_poller, Reach, start, later,
}
use kafka_client.Producer.Threads.Invariant.{Opened, closed, state}
use kafka_client.Producer.Threads.Safety.{Ready, closing, closing-IsSafe}
use kafka_client.Producer.Threads.Schedule.{close_kafka-closing}
use kafka_client.Producer.Threads.Queue.{Settles}
use kafka_client.Producer.Threads.Ends.{closer_steps, GoesOn, closing_bounded}
use kafka_client.Producer.Threads.View.{view}
use kafka_client.Producer.Threads.Refines.{Reach-view}
use kafka_client.Tests.Closing.{reporting, polls_left}
use kafka_client.Tests.{env, running_trace, running_producer, running-Owns}

abbrev running : Opened
running = record {
  object = 3;
  configuration = 2;
  time_out = pos 100;
  client = running_producer;
  trace = running_trace;
}

ready : Ready running testing []
ready = record { owns = running-Owns; identified = omega arith; own = tt; ended = tt }

abbrev asked_calls : Trace
asked_calls = outq_len 3 0 ∷ running_trace

abbrev polled_calls : Trace
polled_calls = poll 3 (pos 100) ∷ asked_calls

abbrev joined_calls : Trace
joined_calls = thread_join 4 ∷ polled_calls

abbrev left_calls : Trace
left_calls = delete_conf 2 ∷ delete_producer 3 ∷ joined_calls

-- The thread calls `poll` before `bRun` is cleared, and comes back from it after that.
clearing_run :
    Reach env (closing running testing []) (state running waiting polled_calls testing [])
unfolding close_at thread_next ask
clearing_run =
    later {t = state running waiting asked_calls (polling 3 (pos 100)) []}
      (later {t = state running stopping asked_calls (polling 3 (pos 100)) []}
        (later {t = state running asking running_trace (polling 3 (pos 100)) []}
          (later {t = state running asking running_trace calling []}
            (later {t = state running entered running_trace calling []}
              (later start (by_poller calling running_trace refl)) (by_closer refl))
            (by_poller (polling 3 (pos 100)) running_trace refl))
          (by_closer refl))
        (by_closer refl))
      (by_poller testing polled_calls refl)

abbrev left : Threads
left = state running returned left_calls exited []

closing_run : Reach env (closing running testing []) left
unfolding close_at thread_next delete_if free_if
closing_run =
    later {t = state running freeing (delete_producer 3 ∷ joined_calls) exited []}
      (later {t = state running deleting joined_calls exited []}
        (later {t = state running waiting polled_calls exited []}
          (later clearing_run (by_poller exited polled_calls refl)) (by_closer refl))
        (by_closer refl))
      (by_closer refl)

closing-IsSafe_example :
    IsSafe left_calls
    × (close_next env left ≢ faults)
    × (thread_next env exited (closed running) true left_calls ≢ faults)
closing-IsSafe_example = closing-IsSafe running env testing [] left ready closing_run

closed_once :
    close_kafka env 1 running_producer running_trace
    ≡ ok (closed running, delete_conf 2 ∷ delete_producer 3 ∷ thread_join 4 ∷ asked_calls)
unfolding close_kafka kafka_client.Producer.Lifecycle.drain kafka_client.Producer.Lifecycle.release
    kafka_client.Producer.Lifecycle.stop_polling
closed_once = refl

close_kafka-closing_example :
    (closed running ≡ closed running)
    × SameObjects (delete_conf 2 ∷ delete_producer 3 ∷ thread_join 4 ∷ asked_calls) left_calls
close_kafka-closing_example =
    close_kafka-closing env running [] 1 (closed running)
      (delete_conf 2 ∷ delete_producer 3 ∷ thread_join 4 ∷ asked_calls) left ready closed_once
      closing_run refl

settles : Settles reporting 3
settles = record {
  rounds_left = polls_left;
  round = λ tr busy. omega (arith, busy);
  before = λ tr t. omega arith;
  within = λ tr t. omega arith;
}

-- Of two messages in the queue, each thread's poll reports one.
abbrev reported_calls : Trace
reported_calls = poll 3 (pos 500) ∷ poll 3 (pos 100) ∷ outq_len 3 2 ∷ running_trace

reporting_run :
    Reach reporting
      (closing running testing [])
      (state running stopping (outq_len 3 0 ∷ reported_calls) testing [])
unfolding close_at thread_next ask
reporting_run =
    later {t = state running asking reported_calls testing []}
      (later
        {t = state running emptying (poll 3 (pos 100) ∷ outq_len 3 2 ∷ running_trace) testing []}
        (later {t = state running emptying (outq_len 3 2 ∷ running_trace) (polling 3 (pos 100)) []}
          (later {t = state running asking running_trace (polling 3 (pos 100)) []}
            (later {t = state running entered running_trace (polling 3 (pos 100)) []}
              (later {t = state running entered running_trace calling []}
                (later start (by_poller calling running_trace refl))
                (by_poller (polling 3 (pos 100)) running_trace refl))
              (by_closer refl))
            (by_closer refl))
          (by_poller testing (poll 3 (pos 100) ∷ outq_len 3 2 ∷ running_trace) refl))
        (by_closer refl))
      (by_closer refl)

closing_bounded_example :
    (closer_steps reporting reporting_run ≤ 12)
    × GoesOn reporting running settles
        (state running stopping (outq_len 3 0 ∷ reported_calls) testing [])
unfolding settles
closing_bounded_example = closing_bounded reporting running settles testing [] _ ready reporting_run

Reach-view_example : Polling.Reach (view 3 left)
Reach-view_example = Reach-view env running [] left ready closing_run
