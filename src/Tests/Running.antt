-- ===== src/Tests/Running.antt =====
-- The example program, and its loop on two messages.
use kafka_client.Base.{ℕ, ◌≡◌, refl, none, some, [], ◌∷◌, ltb, length, if◌then◌else◌, arith, false}
use kafka_client.Base.Int.{pos}
use kafka_client.Base.Text.{codes, c_string}
use kafka_client.Kafka.{
  Env, Trace, Result, ok, fault, running, Message, ErrorCode, LocalError, IsSafe, alive,
}
use kafka_client.Consumer.Receive.Outcome.{Readable}
use kafka_client.Example.Leaves.{run-PlaysAlong}
use kafka_client.Example.Complete.{PlaysAlong, all_calls}
use kafka_client.Example.{consume_all, run}
use kafka_client.Example.Safe.{run-IsSafe}
use kafka_client.Tests.{message_of, small_message, env}

abbrev late_message : Message
late_message = message_of (ErrorCode.local LocalError.timed_out) none none 0 none

-- Messages as long as there are fewer than `n` calls, and then a timeout.
abbrev giving_up_to : ℕ → Env
giving_up_to n = record env {
  consume = λ tr t. if ltb (length tr) n then small_message else late_message;
}

small_message-Readable : Readable small_message (codes "k1") (codes "body")
unfolding c_string
small_message-Readable = (refl, refl, refl, omega arith, omega arith)

abbrev calls_of : Result Trace → Trace
calls_of (ok tr) = tr
calls_of (fault e) = []
calls_of running = []

-- A run in which everything is accepted, and no message comes.
example_calls : Trace
example_calls = calls_of (run (giving_up_to 0) 0 (pos 0) 1 1)

example_run : run (giving_up_to 0) 0 (pos 0) 1 1 ≡ ok example_calls
unfolding example_calls run kafka_client.Example.run_initialised
    kafka_client.Producer.Lifecycle.init_kafka
    kafka_client.Producer.Configure.set_producer_configuration
    kafka_client.Producer.Configure.finish_configuration kafka_client.Config.set_all
    kafka_client.Example.config_map kafka_client.Base.Text.text_eq kafka_client.Base.Text.text_lt
    kafka_client.Producer.Lifecycle.create_producer kafka_client.Producer.Lifecycle.start_polling
    kafka_client.Example.send_and_close kafka_client.Producer.Send.send
    kafka_client.Producer.Headers.create_kafka_header kafka_client.Producer.Headers.sprintf
    kafka_client.Base.Decimal.show_nat kafka_client.Base.Decimal.show_int
    kafka_client.Example.example_message kafka_client.Base.Map.insert c_string
    kafka_client.Callback.Delivery.construct kafka_client.Callback.Delivery.destruct
    kafka_client.Consumer.Lifecycle.close_kafka kafka_client.Consumer.Lifecycle.create_consumer
    kafka_client.Consumer.Lifecycle.destruct kafka_client.Consumer.Lifecycle.init_kafka
    kafka_client.Consumer.Lifecycle.set_consumer_configuration
    kafka_client.Consumer.Receive.consume_from kafka_client.Consumer.Receive.consume_message
    kafka_client.Consumer.Receive.is_received kafka_client.Consumer.State.construct
    kafka_client.Consumer.State.set_debug_mode kafka_client.Example.config_consume_map consume_all
    kafka_client.Example.consume_and_close kafka_client.Example.run_consumer
    kafka_client.KafkaMessage.get_version kafka_client.KafkaMessage.set_command
    kafka_client.KafkaMessage.set_content_type kafka_client.KafkaMessage.set_contents
    kafka_client.KafkaMessage.set_key kafka_client.KafkaMessage.set_version
    kafka_client.Producer.Lifecycle.close_kafka kafka_client.Producer.Lifecycle.destruct
    kafka_client.Producer.Lifecycle.drain kafka_client.Producer.Lifecycle.release
    kafka_client.Producer.Lifecycle.stop_polling kafka_client.Producer.Send.after_headers
    kafka_client.Producer.Send.produce_with kafka_client.Producer.State.construct
    kafka_client.Producer.State.set_debug_mode kafka_client.Producer.State.set_topic
    kafka_client.Producer.Headers.add
example_run = refl

run-IsSafe_example : IsSafe example_calls
run-IsSafe_example = run-IsSafe (giving_up_to 0) 0 (pos 0) 1 1 example_calls example_run

-- A run in which one message comes.
along : PlaysAlong (giving_up_to 30) 0 (pos 0) 0 1
unfolding kafka_client.Example.config_map kafka_client.Example.config_consume_map
    kafka_client.Base.Map.insert kafka_client.Base.Text.text_lt kafka_client.Base.Text.text_eq
    kafka_client.Producer.State.construct kafka_client.Callback.Delivery.construct
    kafka_client.Producer.Headers.add kafka_client.Producer.Send.produce_with
    kafka_client.Producer.Lifecycle.stop_polling
along = record {
  starts = ((refl, refl, refl, (refl, (refl, (refl, (refl, tt))))), refl, refl);
  clock = omega arith;
  drains = refl;
  subscribes = ((refl, (refl, (refl, tt))), refl, refl);
  gives = (refl, (codes "k1", codes "body", small_message-Readable), λ e. cc);
}

run-PlaysAlong_example :
    let calls = all_calls (giving_up_to 30) 0 (pos 0) 0 1 in
    (run (giving_up_to 30) 0 (pos 0) 1 2 ≡ ok calls)
    × IsSafe calls
    × ((h : ℕ) → alive h calls ≡ false)
run-PlaysAlong_example =
    run-PlaysAlong (giving_up_to 30) 0 (pos 0) 1 2 0 1 along (omega arith) (omega arith)
