-- ===== src/Tests/Sessions.antt =====
-- A producer that is initialised once more, sends and is closed.
use kafka_client.Base.{
  ℕ, ◌<◌, ◌^◌, ◌≡◌, refl, Bool, true, false, none, some, List, [], ◌∷◌, ◌++◌, arith, if◌then◌else◌,
  ◌==◌,
}
use kafka_client.Base.Int.{pos}
use kafka_client.Base.Text.{codes}
use kafka_client.Kafka.{
  Trace, Result, ok, fault, running, alive, IsSafe, Env, fresh, conf_create, delete_conf,
}
use kafka_client.Producer.State.{KafkaProducer}
use kafka_client.Producer.Send.Outcome.{prepared}
use kafka_client.Producer.Clock.{milliseconds}
use kafka_client.Producer.Send.{send}
use kafka_client.Producer.Lifecycle.{init_kafka, close_kafka, destruct, stop_polling}
use kafka_client.Producer.Session.{outbox, posted, Session, opened, accepted, Posted}
use kafka_client.Producer.Session.Outbox.{Session-outbox}
use kafka_client.Producer.Configure.Accepted.{Accepts}
use kafka_client.Producer.Session.Retried.{close_kafka-init_kafka_uncreated}
use kafka_client.Producer.Session.Leaks.{init_kafka_again, destruct-Owns}
use kafka_client.Tests.{env, custom, running_trace, running_producer, running-Owns, message, noon}

abbrev pub started : Bool × KafkaProducer × Trace
started =
    init_kafka env custom (codes "localhost:9092") (codes "tests") none (pos 100) running_producer
      running_trace

abbrev sent_calls : Result (Bool × Trace) → Trace
sent_calls (ok (b, tr)) = tr
sent_calls (fault e) = []
sent_calls running = []

abbrev left_of : Result (KafkaProducer × Trace) → KafkaProducer × Trace
left_of (ok r) = r
left_of (fault e) = (running_producer, [])
left_of running = (running_producer, [])

abbrev pub sent_message : Posted
sent_message = posted started.1 message (prepared env started.1 message started.2).0

abbrev pub calls : Trace
calls = sent_calls (send env started.1 message started.2)

abbrev left : KafkaProducer × Trace
left = left_of (close_kafka env 1 started.1 calls)

noon_small : milliseconds noon < 2 ^ 63
noon_small = omega arith

started_lem : started ≡ (true, started.1, started.2)
unfolding init_kafka kafka_client.Producer.Configure.set_producer_configuration
    kafka_client.Producer.Configure.finish_configuration kafka_client.Config.set_all
    kafka_client.Producer.Lifecycle.create_producer kafka_client.Producer.Lifecycle.start_polling
started_lem = refl

sent : send env started.1 message started.2 ≡ ok (true, calls)
unfolding init_kafka kafka_client.Producer.Configure.set_producer_configuration
    kafka_client.Producer.Configure.finish_configuration kafka_client.Config.set_all
    kafka_client.Producer.Lifecycle.create_producer kafka_client.Producer.Lifecycle.start_polling
    send kafka_client.Producer.Headers.create_kafka_header kafka_client.Producer.Headers.sprintf
    kafka_client.Producer.Headers.add kafka_client.Base.Decimal.show_nat
    kafka_client.Base.Decimal.show_int kafka_client.Producer.Send.after_headers
    kafka_client.Producer.Send.produce_with kafka_client.Base.Text.c_string
sent = refl

closed : close_kafka env 1 started.1 calls ≡ ok (left.0, left.1)
unfolding init_kafka kafka_client.Producer.Configure.set_producer_configuration
    kafka_client.Producer.Configure.finish_configuration kafka_client.Config.set_all
    kafka_client.Producer.Lifecycle.create_producer kafka_client.Producer.Lifecycle.start_polling
    send kafka_client.Producer.Headers.create_kafka_header kafka_client.Producer.Headers.sprintf
    kafka_client.Producer.Headers.add kafka_client.Base.Decimal.show_nat
    kafka_client.Base.Decimal.show_int kafka_client.Producer.Send.after_headers
    kafka_client.Producer.Send.produce_with kafka_client.Base.Text.c_string close_kafka
    kafka_client.Producer.Lifecycle.drain kafka_client.Producer.Lifecycle.release
    kafka_client.Producer.Lifecycle.stop_polling
closed = refl

pub session : Session env started.1 started.2 (sent_message ∷ []) started.1 calls
session = accepted message calls noon_small sent opened

Session-outbox_example : outbox calls ≡ sent_message ∷ outbox started.2
Session-outbox_example = Session-outbox session

init_kafka_again_example :
    (alive 3 left.1 ≡ true)
    × (alive 2 left.1 ≡ true)
    × ((left.0).producer ≡ none)
    × ((left.0).global_conf ≡ none)
init_kafka_again_example =
    init_kafka_again env custom (codes "localhost:9092") (codes "tests") (pos 100) 1 3 2
      (sent_message ∷ []) running_producer started.1 started.1 left.0 running_trace started.2 calls
      left.1 running-Owns refl refl started_lem session closed

destruct-Owns_example :
    IsSafe (destruct running_producer running_trace)
    × (alive 3 (destruct running_producer running_trace) ≡ true)
    × (alive 2 (destruct running_producer running_trace) ≡ true)
    × ((h : ℕ)
        → alive h (destruct running_producer running_trace)
          ≡ (if 1 == h then false else alive h running_trace))
destruct-Owns_example = destruct-Owns running_producer running_trace running-Owns

-- The library gives no second producer.
abbrev uncreating : Env
uncreating = record env { creates_producer = λ tr. false }

accepted_again :
    Accepts uncreating
      (fresh running_trace)
      custom
      (codes "localhost:9092")
      none
      running_producer.producer_callback
      (conf_create (fresh running_trace) ∷ running_trace)
accepted_again = (refl, refl, refl, (refl, (refl, tt)))

close_kafka-init_kafka_uncreated_example :
    let (b, p', tr') =
      init_kafka uncreating custom
        (codes "localhost:9092")
        (codes "tests")
        none
        (pos 100)
        running_producer
        running_trace in
    (b ≡ false)
    × (p'.producer ≡ none)
    × (p'.event_poll ≡ running_producer.event_poll)
    × (p'' : KafkaProducer) × (tr'' : Trace) × (close_kafka uncreating 0 p' tr' ≡ ok (p'', tr''))
    × (tr'' ≡ delete_conf 4 ∷ (stop_polling uncreating p' tr').1)
    × (p''.producer ≡ none)
    × (p''.global_conf ≡ none)
    × IsSafe tr''
    × (alive 3 tr'' ≡ true)
    × (alive 2 tr'' ≡ true)
close_kafka-init_kafka_uncreated_example =
    close_kafka-init_kafka_uncreated uncreating custom (codes "localhost:9092") (codes "tests")
      (pos 100) running_producer running_trace 0 3 2 running-Owns refl refl accepted_again refl
