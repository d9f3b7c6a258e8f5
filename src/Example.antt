-- ===== src/Example.antt =====
-- `main` of examples/producer_examples.cpp: one message is sent, and then messages are consumed.
-- What it prints is left out.
pub mod Runs
pub mod Safe
pub mod Frame
pub mod Complete
pub mod Ends
pub mod Leaves
use kafka_client.Base.{ℕ, zero, suc, Bool, true, false, Option, none, List, [], ◌∷◌, if◌then◌else◌}
use kafka_client.Base.Int.{ℤ, pos}
use kafka_client.Base.Text.{Text, codes}
use kafka_client.Base.Map.{Map, insert}
use kafka_client.Kafka.{Env, Trace, Result, ok, running, ◌>>=◌}
use kafka_client.KafkaMessage.{
  KafkaMessage, set_key, set_command, set_version, set_content_type, set_contents,
}
use kafka_client.ReceivedMessage.{ReceivedMessage}
use kafka_client.Producer.State as Producer
use kafka_client.Producer.State.{KafkaProducer, set_topic}
use kafka_client.Producer.Send.{send}
use kafka_client.Producer.Lifecycle as ProducerLifecycle
use kafka_client.Consumer.State as Consumer
use kafka_client.Consumer.State.{KafkaConsumer}
use kafka_client.Consumer.Receive.{consume_message}
use kafka_client.Consumer.Lifecycle as ConsumerLifecycle

abbrev pub brokers : Text
brokers = codes "172.31.14.25:9091"

unfoldable pub config_map : Map
unfolding insert
config_map = insert (codes "compression.type") (codes "lz4") (
    insert (codes "max.in.flight.requests.per.connection") (codes "1")
      (insert (codes "acks") (codes "all") (insert (codes "enable.idempotence") (codes "true") [])))

unfoldable pub config_consume_map : Map
unfolding insert
config_consume_map = insert (codes "auto.offset.reset") (codes "latest") []

-- `KafkaMessage message` leaves its version as it is in memory; it is set at once.
unfoldable pub example_message : KafkaMessage
unfolding set_key set_command set_version set_content_type set_contents
example_message = set_contents (codes "ddolsoon  contents222222") (
    set_content_type (codes "application/json") (
      set_version (pos 1) (
        set_command (codes "CREATE_THUMBNAIL") (
          set_key (codes "testKey")
            record { key = []; command = []; version = pos 0; content_type = []; contents = [] }))))

abbrev pub nothing : ReceivedMessage
nothing = record { key = []; headers = []; body = [] }

module _ (env : Env) where
  -- The loop that consumes until `consume` answers `false`, on fuel.
  unfoldable pub consume_all : ℕ → KafkaConsumer → ReceivedMessage → Trace → Result Trace
  consume_all zero c r tr = running
  consume_all (suc rounds) c r tr = do
    (received, r', tr') ← consume_message env c r tr
    let rest = consume_all rounds c r' tr'
    if received then rest else ok tr'

  -- What follows a consumer's `initKafka`, up to the destructor of `kafkaConsumer`.
  unfoldable pub consume_and_close : ℕ → Bool × KafkaConsumer × Trace → Result Trace
  consume_and_close rounds (initialised, c, tr) =
      if initialised
      then (do
        tr' ← consume_all rounds c nothing tr
        (c', tr'') ← ConsumerLifecycle.close_kafka (Consumer.set_debug_mode true c) tr'
        ok (ConsumerLifecycle.destruct tr''))
      else ok (ConsumerLifecycle.destruct tr)

  -- The second half of `main`; `junk` is the consumer's poll period before `initKafka`.
  unfoldable pub run_consumer : ℤ → ℕ → Trace → Result Trace
  run_consumer junk rounds tr = consume_and_close rounds (
      ConsumerLifecycle.init_kafka env config_consume_map brokers (codes "ppp_thumb" ∷ [])
        (codes "test-consumer") (pos 5000) (Consumer.construct junk) tr)

  -- The first half after `initKafka`: it ends with `closeKafka`.
  unfoldable pub send_and_close : ℕ → KafkaProducer → Trace → Result (KafkaProducer × Trace)
  send_and_close fuel p tr = do
    (sent, tr') ← send env (set_topic (codes "ppp_thumb") p) example_message tr
    ProducerLifecycle.close_kafka env fuel
        (Producer.set_debug_mode true (set_topic (codes "ppp_thumb") p)) tr'

  -- What follows a producer's `initKafka`, up to the destructor of `kafkaProducer`.
  unfoldable pub run_initialised : ℤ → ℕ → ℕ → Bool × KafkaProducer × Trace → Result Trace
  run_initialised junk fuel rounds (initialised, p, tr) =
      if initialised
      then (do
        (p', tr') ← send_and_close fuel p tr
        tr'' ← run_consumer junk rounds tr'
        ok (ProducerLifecycle.destruct p' tr''))
      else ok (ProducerLifecycle.destruct p tr)

  -- `main`: the fuel is for `closeKafka` and the rounds for the loop; `junk_thread` is the thread
  -- id before `initKafka`.
  unfoldable pub run : ℕ → ℤ → ℕ → ℕ → Result Trace
  run junk_thread junk fuel rounds = run_initialised junk fuel rounds (
      ProducerLifecycle.init_kafka env config_map brokers (codes "test-agent") none (pos 1000)
        (Producer.construct junk_thread []).0 (Producer.construct junk_thread []).1)
