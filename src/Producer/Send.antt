-- ===== src/Producer/Send.antt =====
-- `send`
pub mod Outcome
pub mod Owned
pub mod Frame
use kafka_client.Base.{ℕ, Bool, true, false, none, some, List, ◌∷◌, if◌then◌else◌, Option}
use kafka_client.Base.Int.{ℤ, negsuc}
use kafka_client.Base.Text.{Text}
use kafka_client.Kafka.{
  Env, Trace, fresh, headers_create, delete_headers, produce, Produced, is_no_error, Result, ok,
  fault, null_pointer, ◌>>=◌,
}
use kafka_client.KafkaMessage.{KafkaMessage, get_key, get_contents}
use kafka_client.Producer.State.{KafkaProducer}
use kafka_client.Producer.Headers.{create_kafka_header}

-- `Topic::PARTITION_UA`, -1.
abbrev pub partition_ua : ℤ
partition_ua = negsuc 0

-- The arguments of the call of `produce`.
abbrev pub produced : KafkaMessage → Text → ℕ → List (Text × Text) → Produced
produced m topic object hs = record {
  topic = topic;
  partition = partition_ua;
  payload = get_contents m;
  key = get_key m;
  timestamp = 0;
  headers = object;
  header_list = hs;
}

module _ (env : Env) where
  -- The call of `produce`, and the clean-up when it fails.
  unfoldable pub produce_with :
      KafkaMessage → Text → ℕ → List (Text × Text) → ℕ → Trace → Bool × Trace
  unfolding get_key get_contents
  produce_with m topic object hs producer tr =
      let r = produced m topic object hs in
      let e = env.produce tr r in
      let tr' = produce producer r e ∷ tr in
      if is_no_error e then (true, tr') else (false, delete_headers object ∷ tr')

  -- `producer->produce(...)`
  abbrev pub produce_to :
      Option ℕ → KafkaMessage → Text → ℕ → List (Text × Text) → Trace → Result (Bool × Trace)
  produce_to none m topic object hs tr = fault null_pointer
  produce_to (some h) m topic object hs tr = ok (produce_with m topic object hs h tr)

  -- What follows the call of `_createKafkaHeader`, whose result is the argument.
  unfoldable pub after_headers :
      KafkaProducer
      → KafkaMessage
      → ℕ
      → Bool × Text × List (Text × Text) × Trace
      → Result (Bool × Trace)
  after_headers p m object (made, message_id, hs, tr) =
      if made
      then produce_to p.producer m p.topic object hs tr
      else ok (false, delete_headers object ∷ tr)

  unfoldable pub send : KafkaProducer → KafkaMessage → Trace → Result (Bool × Trace)
  unfolding after_headers
  send p m tr =
      create_kafka_header env (fresh tr) m p.user_agent (headers_create (fresh tr) ∷ tr)
      >>= after_headers p m (fresh tr)
