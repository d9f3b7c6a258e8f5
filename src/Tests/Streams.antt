-- ===== src/Tests/Streams.antt =====
-- A consumer that is initialised, receives a message and is closed, and a producer before it.
use kafka_client.Base.{◌≡◌, refl, Bool, true, none, some, List, [], ◌∷◌, ◌++◌, arith, sym}
use mathlib.Core.Path.{subst}
use kafka_client.Base.Int.{pos}
use kafka_client.Base.Text.{Text, codes}
use kafka_client.Kafka.{Trace, Message, Result, ok, fault, running, fresh, delete_message, Env}
use kafka_client.Ownership.{Holds}
use kafka_client.Ownership.Frame.{SameObjects}
use kafka_client.ReceivedMessage.{ReceivedMessage}
use kafka_client.Producer.Session.Outbox.{Session-outbox}
use kafka_client.Producer.Session.{outbox}
use kafka_client.Consumer.Receive.Outcome.{contents_of, Readable, consume_message-Readable}
use kafka_client.Consumer.State.{KafkaConsumer}
use kafka_client.Consumer.Receive.{consume_message, next_message}
use kafka_client.Consumer.Lifecycle.{init_kafka, close_kafka}
use kafka_client.Consumer.Session.{AllStored, inbox, Session, opened, received}
use kafka_client.Consumer.Session.Inbox.{Session-inbox}
use kafka_client.Consumer.Session.Life.{init_kafka-Session}
use kafka_client.RoundTrip.{headers_of}
use kafka_client.RoundTrip.Stream.{
  received_view, Session-AllCarried, AllPlain, sent_view, AllCarried,
}
use kafka_client.Tests.{
  custom, consumer_trace, running_consumer, consumer-Owns, nothing_received, message_of, env_giving,
  no_error,
}
use kafka_client.Tests.Sessions as Sessions

-- The message that was sent, as the library gives it.
abbrev delivered : Message
delivered =
    message_of no_error (some (codes "k1")) (some (codes "body")) 4
      (some (headers_of Sessions.sent_message.headers))

abbrev giving : Env
giving = env_giving delivered

abbrev started : Bool × KafkaConsumer × Trace
started =
    init_kafka giving custom (codes "localhost:9092") (codes "jobs" ∷ []) (codes "group") (pos 1000)
      running_consumer consumer_trace

abbrev left_of : Result (KafkaConsumer × Trace) → KafkaConsumer × Trace
left_of (ok r) = r
left_of (fault e) = (running_consumer, [])
left_of running = (running_consumer, [])

-- The object and the calls after one message, from the library's consumer 8.
abbrev got : ReceivedMessage × Trace
got = (
  contents_of delivered (codes "k1") (codes "body"),
  delete_message (fresh started.2) ∷ (next_message giving started.1 8 started.2).1,
)

abbrev left : KafkaConsumer × Trace
left = left_of (close_kafka started.1 got.1)

started_lem : started ≡ (true, started.1, started.2)
unfolding init_kafka kafka_client.Consumer.Lifecycle.set_consumer_configuration
    kafka_client.Config.set_all kafka_client.Consumer.Lifecycle.create_consumer
started_lem = refl

delivered-Readable : Readable delivered (codes "k1") (codes "body")
unfolding kafka_client.Base.Text.c_string
delivered-Readable = (refl, refl, refl, omega arith, omega arith)

consumed : consume_message giving started.1 nothing_received started.2 ≡ ok (true, got.0, got.1)
unfolding init_kafka kafka_client.Consumer.Lifecycle.set_consumer_configuration
    kafka_client.Config.set_all kafka_client.Consumer.Lifecycle.create_consumer
consumed =
    consume_message-Readable giving started.1 nothing_received started.2 8 (codes "k1")
      (codes "body") refl refl delivered-Readable

closed : close_kafka started.1 got.1 ≡ ok (left.0, left.1)
unfolding init_kafka kafka_client.Consumer.Lifecycle.set_consumer_configuration
    kafka_client.Config.set_all kafka_client.Consumer.Lifecycle.create_consumer close_kafka
closed = refl

session : Session giving started.1 started.2 (got.0 ∷ []) started.1 got.0 got.1
session = received got.0 got.1 consumed (opened nothing_received)

Session-inbox_example :
    (ms : List Message) × (inbox got.1 ≡ ms ++ inbox started.2) × AllStored ms (got.0 ∷ [])
Session-inbox_example = Session-inbox session

init_kafka-Session_example :
    SameObjects consumer_trace left.1
    × ((left.0).consumer ≡ none)
    × ((left.0).global_conf ≡ none)
    × Holds (left.0).consumer (left.0).global_conf none left.1
    × (ms : List Message) × (inbox left.1 ≡ ms ++ inbox consumer_trace)
    × AllStored ms (got.0 ∷ [])
init_kafka-Session_example =
    init_kafka-Session giving {s = none} custom (codes "localhost:9092") (codes "jobs" ∷ [])
      (codes "group") (pos 1000) (got.0 ∷ []) got.0 running_consumer started.1 started.1 left.0
      consumer_trace started.2 got.1 left.1 consumer-Owns started_lem session closed

plain : AllPlain (Sessions.sent_message ∷ [])
plain = (
  (
    (λ e. omega arith, (λ e. omega arith, tt)),
    (λ e. omega arith, (λ e. omega arith, (λ e. omega arith, (λ e. omega arith, tt)))),
    omega arith,
  ),
  tt,
)

carried : AllCarried (outbox Sessions.calls) (inbox got.1)
unfolding kafka_client.Producer.Lifecycle.init_kafka
    kafka_client.Producer.Configure.set_producer_configuration
    kafka_client.Producer.Configure.finish_configuration kafka_client.Config.set_all
    kafka_client.Producer.Lifecycle.create_producer kafka_client.Producer.Lifecycle.start_polling
    init_kafka kafka_client.Consumer.Lifecycle.set_consumer_configuration
    kafka_client.Consumer.Lifecycle.create_consumer
carried =
    subst (λ l. AllCarried l (inbox got.1)) (sym (Session-outbox Sessions.session))
      ((refl, refl, refl, refl), tt)

Session-AllCarried_example : received_view (got.0 ∷ []) ≡ sent_view (Sessions.sent_message ∷ [])
unfolding kafka_client.Producer.Lifecycle.init_kafka
    kafka_client.Producer.Configure.set_producer_configuration
    kafka_client.Producer.Configure.finish_configuration kafka_client.Config.set_all
    kafka_client.Producer.Lifecycle.create_producer kafka_client.Producer.Lifecycle.start_polling
    init_kafka kafka_client.Consumer.Lifecycle.set_consumer_configuration
Session-AllCarried_example =
    Session-AllCarried (Sessions.sent_message ∷ []) (got.0 ∷ []) Sessions.session session refl refl
      plain carried
