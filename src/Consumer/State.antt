-- ===== src/Consumer/State.antt =====
-- The members of `KafkaConsumer`, the constructor and the setters.
use kafka_client.Base.{ℕ, Bool, false, Option, none, List, []}
use kafka_client.Base.Int.{ℤ}
use kafka_client.Base.Text.{Text}

pub record KafkaConsumer : Type 0 where
  pub brokers : Text
  pub consumer_id : Text
  pub topics : List Text
  pub consumer : Option ℕ
  pub is_debug_mode : Bool
  pub poll_period : ℤ
  pub global_conf : Option ℕ

-- `KafkaConsumer()`. It leaves `_pollPeriod` as it is in memory, here `junk`.
unfoldable pub construct : ℤ → KafkaConsumer
construct junk = record {
  brokers = [];
  consumer_id = [];
  topics = [];
  consumer = none;
  is_debug_mode = false;
  poll_period = junk;
  global_conf = none;
}

unfoldable pub set_debug_mode : Bool → KafkaConsumer → KafkaConsumer
set_debug_mode b c = record c { is_debug_mode = b }

unfoldable pub set_poll_period : ℤ → KafkaConsumer → KafkaConsumer
set_poll_period t c = record c { poll_period = t }
