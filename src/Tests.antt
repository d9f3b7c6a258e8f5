-- ===== src/Tests.antt =====
-- A library, a producer and a consumer to run the theorems on.
mod Sending
mod Closing
mod Consuming
mod Callbacks
mod Clock
mod Running
mod Sessions
mod Starting
mod Streams
mod Threads
mod Races
mod Applications
use kafka_client.Base.{
  ℕ, ◌+◌, ◌*◌, ◌/◌, ◌%◌, ◌^◌, Bool, true, false, Option, none, some, List, [], ◌∷◌, length, arith,
  refl,
}
use kafka_client.Base.Int.{pos}
use kafka_client.Base.Text.{Text, codes}
use kafka_client.Base.Map.{Map}
use kafka_client.Kafka.{
  Env, Trace, TimeVal, Message, Header, ErrorCode, BrokerError, LocalError, persisted, conf_ok,
  conf_unknown, Status, conf_create, producer_create, new_send_callback, consumer_create,
  make_header, alive, needed,
}
use kafka_client.KafkaMessage.{KafkaMessage}
use kafka_client.ReceivedMessage.{ReceivedMessage}
use kafka_client.Callback.Delivery.{ProducerCallback}
use kafka_client.Producer.State.{KafkaProducer}
use kafka_client.Producer.Lifecycle.Owned.{Owns}
use kafka_client.Consumer.State.{KafkaConsumer}
use kafka_client.Consumer.Lifecycle.Outcome as Outcome

-- The time of every call.
abbrev pub noon : TimeVal
noon = record { sec = 1600000000; usec = 250000 }

abbrev pub no_error : ErrorCode
no_error = ErrorCode.broker BrokerError.no_error

abbrev pub message_of : ErrorCode → Option Text → Option Text → ℕ → Option (List Header) → Message
message_of e k t n hs = record {
  errstr = [];
  err = e;
  topic_name = codes "jobs";
  partition = pos 0;
  payload = t;
  len = n;
  key = k;
  key_len = 2;
  offset = pos 7;
  latency = pos 0;
  status = persisted;
  headers = hs;
  broker_id = pos 1;
}

-- Three headers: two of one key, and one without a value.
abbrev pub three_headers : List Header
three_headers =
    make_header (codes "a") (some (codes "1"))
    ∷ make_header (codes "b") none
    ∷ make_header (codes "a") (some (codes "2"))
    ∷ []

abbrev pub small_message : Message
small_message = message_of no_error (some (codes "k1")) (some (codes "body")) 4 (some three_headers)

-- A library that accepts everything and gives one message again and again.
abbrev pub env_giving : Message → Env
env_giving m = record {
  conf_set = λ tr k v. conf_ok;
  conf_set_event_cb = λ tr. conf_ok;
  conf_set_dr_cb = λ tr. conf_ok;
  creates_producer = λ tr. true;
  creates_consumer = λ tr. true;
  outq_len = λ tr. 0;
  produce = λ tr r. no_error;
  headers_add = λ tr k v. no_error;
  thread_create = λ tr. pos 0;
  thread_junk = λ tr. 99;
  subscribe = λ tr topics. no_error;
  consume = λ tr t. m;
  gettimeofday = λ tr n. noon;
  rand_r = λ s. ((s / 65536) % 32768, (s * 1103515245 + 12345) % 2 ^ 32);
}

abbrev pub env : Env
env = env_giving small_message

-- A library that refuses properties, messages and threads, and creates nothing.
abbrev pub refusing : Env
refusing = record env {
  conf_set = λ tr k v. conf_unknown;
  creates_consumer = λ tr. false;
  produce = λ tr r. ErrorCode.local LocalError.queue_full;
  thread_create = λ tr. pos 11;
}

abbrev pub custom : Map
custom = (codes "acks", codes "all") ∷ (codes "linger.ms", codes "5") ∷ []

abbrev pub callback : ProducerCallback
callback = record { send_callback = some 1; is_default_callback = true }

-- A producer that runs: its callback is object 1, its configuration 2, the library's producer 3.
abbrev pub running_trace : Trace
running_trace = producer_create 2 (some 3) ∷ conf_create 2 ∷ new_send_callback 1 ∷ []

abbrev pub running_producer : KafkaProducer
running_producer = record {
  brokers = codes "localhost:9092";
  user_agent = codes "tests";
  topic = codes "jobs";
  producer = some 3;
  is_debug_mode = false;
  event_poll = record { producer = some 3; run = true; time_out = pos 100 };
  polling_thread_id = 4;
  global_conf = some 2;
  producer_callback = callback;
}

abbrev pub message : KafkaMessage
message = record {
  key = codes "k1";
  command = codes "start";
  version = pos 12;
  content_type = codes "text/plain";
  contents = codes "body";
}

-- A consumer that runs: its configuration is object 1, the library's consumer 2.
abbrev pub consumer_trace : Trace
consumer_trace = consumer_create 1 (some 2) ∷ conf_create 1 ∷ []

abbrev pub running_consumer : KafkaConsumer
running_consumer = record {
  brokers = codes "localhost:9092";
  consumer_id = codes "group";
  topics = [];
  consumer = some 2;
  is_debug_mode = false;
  poll_period = pos 1000;
  global_conf = some 1;
}

abbrev pub nothing_received : ReceivedMessage
nothing_received = record { key = []; headers = []; body = [] }

pub running-Owns : Owns running_producer running_trace
unfolding alive needed
running-Owns = record {
  safe = (((refl, tt), (tt, (tt, tt))));
  numbered = λ h l. ground arith;
  live_o = refl;
  live_c = refl;
  live_s = refl;
  apart_oc = omega arith;
  apart_os = omega arith;
  apart_cs = omega arith;
}

pub consumer-Owns : Outcome.Owns running_consumer consumer_trace
unfolding alive needed
consumer-Owns = record {
  safe = (((refl, tt), (tt, tt)));
  numbered = λ h l. ground arith;
  live_o = refl;
  live_c = refl;
  live_s = tt;
  apart_oc = omega arith;
  apart_os = tt;
  apart_cs = tt;
}
