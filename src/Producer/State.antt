-- ===== src/Producer/State.antt =====
-- The members of `KafkaProducer` and `EventPoll`, the constructors, the setters and `getTopic`.
use kafka_client.Base.{ℕ, Bool, false, Option, none, []}
use kafka_client.Base.Int.{ℤ, pos}
use kafka_client.Base.Text.{Text}
use kafka_client.Kafka.{Trace}
use kafka_client.Callback.Delivery as Delivery
use kafka_client.Callback.Delivery.{ProducerCallback}

-- `class EventPoll`
pub record EventPoll : Type 0 where
  pub producer : Option ℕ
  pub run : Bool
  pub time_out : ℤ

-- `EventPoll()`
abbrev pub new_event_poll : EventPoll
new_event_poll = record { producer = none; run = false; time_out = pos 0 }

-- `_bRunPollingThread`, which nothing reads, is left out; `_producerEventCallback` has no state.
pub record KafkaProducer : Type 0 where
  pub brokers : Text
  pub user_agent : Text
  pub topic : Text
  pub producer : Option ℕ
  pub is_debug_mode : Bool
  pub event_poll : EventPoll
  pub polling_thread_id : ℕ
  pub global_conf : Option ℕ
  pub producer_callback : ProducerCallback

-- `KafkaProducer()`. It leaves `_pollingThreadId` as it is in memory, here `junk`.
unfoldable pub construct : ℕ → Trace → KafkaProducer × Trace
unfolding Delivery.construct
construct junk tr =
    let (callback, tr') = Delivery.construct tr in
    (
      record {
        brokers = [];
        user_agent = [];
        topic = [];
        producer = none;
        is_debug_mode = false;
        event_poll = new_event_poll;
        polling_thread_id = junk;
        global_conf = none;
        producer_callback = callback;
      },
      tr',
    )

unfoldable pub set_debug_mode : Bool → KafkaProducer → KafkaProducer
set_debug_mode b p = record p { is_debug_mode = b }

unfoldable pub get_topic : KafkaProducer → Text
get_topic p = p.topic

unfoldable pub set_topic : Text → KafkaProducer → KafkaProducer
set_topic t p = record p { topic = t }

-- `_setUserAgent`
unfoldable pub set_user_agent : Text → KafkaProducer → KafkaProducer
set_user_agent t p = record p { user_agent = t }
