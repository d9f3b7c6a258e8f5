-- ===== src/Consumer/Receive.antt =====
-- `consume`
pub mod Outcome
pub mod Owned
pub mod Cases
pub mod Frame
pub mod Abstract
use kafka_client.Base.{ℕ, Bool, true, false, Option, none, some, List, [], ◌∷◌, if◌then◌else◌}
use kafka_client.Base.Text.{Text, c_string}
use kafka_client.Base.Map.{Map, insert}
use kafka_client.Kafka.{
  Env, Trace, fresh, consume, delete_message, Message, Header, ErrorCode, LocalError, BrokerError,
  Result, ok, fault, null_pointer, ◌>>=◌,
}
use kafka_client.ReceivedMessage.{ReceivedMessage, set_key, set_headers, set_body}
use kafka_client.Consumer.State.{KafkaConsumer}
use kafka_client.Consumer.Body.{copy_body, body_size}

-- The switch on `message->err()`.
unfoldable pub is_received : ErrorCode → Bool
is_received (ErrorCode.broker BrokerError.no_error) = true
is_received (ErrorCode.local LocalError.timed_out) = false
is_received (ErrorCode.local LocalError.partition_eof) = false
is_received (ErrorCode.local LocalError.unknown_topic) = false
is_received (ErrorCode.local LocalError.unknown_partition) = false
is_received e = false

-- The loop over the headers: both texts are read as C strings, a NULL value is skipped, and a
-- later header of the same key replaces an earlier one.
unfoldable pub collect : List Header → Map → Map
collect [] m = m
collect (h ∷ hs) m =
    collect hs (elim h.value [ none ↦ m | some v ↦ insert (c_string h.key) (c_string v) m ])

abbrev pub received_headers : Option (List Header) → Map
received_headers none = []
received_headers (some hs) = collect hs []

-- `message->key()->c_str()`
abbrev pub key_of : Option Text → Result Text
key_of none = fault null_pointer
key_of (some k) = ok (c_string k)

-- What is taken from a message that was received.
unfoldable pub fill : Message → ReceivedMessage → Result ReceivedMessage
unfolding set_key set_headers set_body
fill m r = do
  key ← key_of m.key
  body ← copy_body body_size m.payload m.len
  ok (set_body body (set_headers (received_headers m.headers) (set_key key r)))

-- `delete message` and the result, after a message was received.
unfoldable pub receive : Message → ReceivedMessage → Trace → Result (Bool × ReceivedMessage × Trace)
receive m r calls = do r' ← fill m r; ok (true, r', calls)

module _ (env : Env) where
  abbrev pub next_message : KafkaConsumer → ℕ → Trace → Message × Trace
  next_message c h tr =
      let m = env.consume tr c.poll_period in (m, consume h c.poll_period (fresh tr) m ∷ tr)

  -- The message object is `fresh tr`; it is deleted on either path.
  unfoldable pub consume_from :
      ℕ → KafkaConsumer → ReceivedMessage → Trace → Result (Bool × ReceivedMessage × Trace)
  unfolding receive
  consume_from h c r tr =
      let (m, calls) = next_message c h tr in
      let calls' = delete_message (fresh tr) ∷ calls in
      if is_received m.err then receive m r calls' else ok (false, r, calls')

  -- `consume`
  unfoldable pub consume_message :
      KafkaConsumer → ReceivedMessage → Trace → Result (Bool × ReceivedMessage × Trace)
  unfolding consume_from
  consume_message c r tr = elim c.consumer [
    | none ↦ fault null_pointer
    | some h ↦ consume_from h c r tr
  ]
