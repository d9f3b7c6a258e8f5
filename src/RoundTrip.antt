-- ===== src/RoundTrip.antt =====
-- A message on its way from `KafkaProducer::send` (KafkaProducer.cpp) over librdkafka to
-- `ProducerDefaultSendCallback::success` and to `KafkaConsumer::consume` (KafkaConsumer.cpp).
pub mod Received
pub mod Reported
pub mod Stream
use kafka_client.Base.{◌≡◌, some, List, [], ◌∷◌, length, if◌then◌else◌}
use kafka_client.Base.Text.{Text, text_eq}
use kafka_client.Kafka.{Produced, Message, Header, make_header, ErrorCode, BrokerError}

-- The headers of a message that was produced with the pairs.
abbrev pub headers_of : List (Text × Text) → List Header
headers_of [] = []
headers_of ((k, v) ∷ l) = make_header k (some v) ∷ headers_of l

-- What librdkafka documents of a message that was produced and that it hands to a callback or a
-- consumer without an error: the key, the payload and the headers are those that were given.
pub record Delivers (r : Produced) (m : Message) : Type 0 where
  pub err : m.err ≡ ErrorCode.broker BrokerError.no_error
  pub key : m.key ≡ some r.key
  pub payload : m.payload ≡ some r.payload
  pub len : m.len ≡ length r.payload
  pub headers : m.headers ≡ some (headers_of r.header_list)

-- What it documents of a message in a delivery report, delivered or failed: the key and the headers
-- are those that were given.
pub record Reports (r : Produced) (m : Message) : Type 0 where
  pub key : m.key ≡ some r.key
  pub headers : m.headers ≡ some (headers_of r.header_list)

-- What it documents of `Headers::get`: all headers of the key, in their order.
abbrev pub headers_of_key : Text → List Header → List Header
headers_of_key k [] = []
headers_of_key k (h ∷ hs) = if text_eq h.key k then h ∷ headers_of_key k hs else headers_of_key k hs
