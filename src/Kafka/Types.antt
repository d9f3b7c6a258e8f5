-- ===== src/Kafka/Types.antt =====
-- The values that rdkafkacpp.h passes: results, events, headers and messages.
use kafka_client.Base.{ℕ, Bool, Option, none, List, if◌then◌else◌}
use kafka_client.Base.Int.{ℤ}
use kafka_client.Base.Text.{Text}
use kafka_client.Kafka.Errors.{ErrorCode, broker, no_error, is_no_error}

-- `Conf::ConfResult`
pub data ConfResult : Type 0 where
  conf_unknown conf_invalid conf_ok : ConfResult

-- `Message::Status`
pub data Status : Type 0 where
  not_persisted possibly_persisted persisted : Status

-- `Event::Type`
pub data EventType : Type 0 where
  event_error event_stats event_log event_throttle : EventType

-- `Event::Severity`
pub data Severity : Type 0 where
  emerg alert critical error warning notice info debug : Severity

-- `class Event`: what its accessors return.
pub record Event : Type 0 where
  pub type : EventType
  pub err : ErrorCode
  pub severity : Severity
  pub fac : Text
  pub str : Text
  pub throttle_time : ℤ
  pub broker_name : Text
  pub broker_id : ℤ
  pub fatal : Bool

-- `class Headers::Header`. Where `value` is not NULL, a NUL stands behind its bytes.
pub record Header : Type 0 where
  pub key : Text
  pub value : Option Text
  pub err : ErrorCode

-- `Header(key, value, value_size)`
abbrev pub make_header : Text → Option Text → Header
make_header k v = record { key = k; value = v; err = broker no_error }

-- `Header(key, value, value_size, err)`: no value is kept beside an error.
abbrev pub make_header_err : Text → Option Text → ErrorCode → Header
make_header_err k v e = record { key = k; value = if is_no_error e then v else none; err = e }

-- `class Message`: what its accessors return. A pointer that may be NULL is an `Option`.
pub record Message : Type 0 where
  pub errstr : Text
  pub err : ErrorCode
  pub topic_name : Text
  pub partition : ℤ
  pub payload : Option Text
  pub len : ℕ
  pub key : Option Text
  pub key_len : ℕ
  pub offset : ℤ
  pub latency : ℤ
  pub status : Status
  pub headers : Option (List Header)
  pub broker_id : ℤ
