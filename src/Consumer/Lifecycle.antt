-- ===== src/Consumer/Lifecycle.antt =====
-- `_setConsumerConfiguration`, `initKafka`, `closeKafka` and the destructor of `KafkaConsumer`.
pub mod Outcome
pub mod Start
pub mod Frame
use kafka_client.Base.{
  ℕ, Bool, false, not, ◌&&◌, Option, none, some, List, ◌∷◌, if◌then◌else◌, is_some,
}
use kafka_client.Base.Int.{ℤ, pos}
use kafka_client.Base.Text.{Text, codes, c_string}
use kafka_client.Base.Map.{Map}
use kafka_client.Kafka.{
  Env, Trace, fresh, conf_create, consumer_create, subscribe, consumer_close, delete_consumer,
  delete_conf, wait_destroyed, is_no_error, Result, ok, fault, null_pointer,
}
use kafka_client.Config.{set_property, set_all}
use kafka_client.Consumer.State.{KafkaConsumer}

abbrev pub bootstrap_servers : Text
bootstrap_servers = codes "bootstrap.servers"

abbrev pub group_id : Text
group_id = codes "group.id"

module _ (env : Env) where
  unfoldable pub set_consumer_configuration : ℕ → Text → Text → Map → Trace → Bool × Trace
  unfolding set_all
  set_consumer_configuration conf brokers id custom tr =
      let (ok₁, tr₁) = set_property env conf bootstrap_servers (c_string brokers) tr in
      let (ok₂, tr₂) = set_property env conf group_id (c_string id) tr₁ in
      let (ok₃, tr₃) = set_all env conf custom tr₂ in
      if ok₁ then if ok₂ then (ok₃, tr₃) else (false, tr₂) else (false, tr₁)

  -- `KafkaConsumer::create` and `subscribe`, the end of `initKafka`.
  unfoldable pub create_consumer :
      ℕ → List Text → KafkaConsumer → Trace → Bool × KafkaConsumer × Trace
  create_consumer conf topics c tr =
      if env.creates_consumer tr
      then (let h = fresh tr in
          let tr' = consumer_create conf (some h) ∷ tr in
          let e = env.subscribe tr' topics in
          (is_no_error e, record c { consumer = some h }, subscribe h topics e ∷ tr'))
      else (false, record c { consumer = none }, consumer_create conf none ∷ tr)

  unfoldable pub init_kafka :
      Map → Text → List Text → Text → ℤ → KafkaConsumer → Trace → Bool × KafkaConsumer × Trace
  unfolding create_consumer
  init_kafka custom brokers topics id period c tr =
      let conf = fresh tr in
      let c' = record c {
        brokers = brokers;
        consumer_id = id;
        poll_period = period;
        global_conf = some conf;
      } in
      let (configured, tr') =
        set_consumer_configuration conf brokers id custom (conf_create conf ∷ tr) in
      if configured then create_consumer conf topics c' tr' else (false, c', tr')

-- The configuration is deleted after the consumer.
abbrev pub delete_configuration : Option ℕ → Trace → Trace
delete_configuration none tr = tr
delete_configuration (some c) tr = delete_conf c ∷ tr

-- `closeKafka`. The call `consumer->close()` stands before the test for NULL.
unfoldable pub close_kafka : KafkaConsumer → Trace → Result (KafkaConsumer × Trace)
close_kafka c tr =
    if not (is_some c.consumer) && not (is_some c.global_conf)
    then ok (c, tr)
    else elim c.consumer [
      | none ↦ fault null_pointer
      | some h ↦ ok (
        record c { consumer = none; global_conf = none },
        delete_configuration c.global_conf (delete_consumer h ∷ consumer_close h ∷ tr),
      )
    ]

-- `~KafkaConsumer()`
unfoldable pub destruct : Trace → Trace
destruct tr = wait_destroyed (pos 5000) ∷ tr
