-- ===== src/Consumer/Session.antt =====
-- A consumer between `initKafka` and `closeKafka`: the messages that it has received in between.
pub mod Inbox
pub mod Life
use kafka_client.Base.{◌≡◌, Bool, true, false, some, List, [], ◌∷◌, if◌then◌else◌}
use kafka_client.Base.Int.{ℤ}
use kafka_client.Base.Text.{Text, c_string}
use kafka_client.Kafka.{Env, Call, Trace, consume, Message, is_no_error, ok}
use kafka_client.ReceivedMessage.{ReceivedMessage}
use kafka_client.Consumer.State.{KafkaConsumer, set_debug_mode, set_poll_period}
use kafka_client.Consumer.Receive.{consume_message, received_headers}
use kafka_client.Consumer.Receive.Cases.{BodyOf}

-- The library has given a message if `consume` has answered with one that is not an error.
abbrev pub given_by : Call → List Message → List Message
given_by (consume h t n m) l = if is_no_error m.err then m ∷ l else l
given_by _ l = l

-- The messages that the library has given, the last one first.
abbrev pub inbox : Trace → List Message
inbox [] = []
inbox (c ∷ tr) = given_by c (inbox tr)

-- What the caller's object holds after a message: its key, its headers and the copied part of its
-- payload.
abbrev pub Stores : Message → ReceivedMessage → Type 0
Stores m r =
    (k : Text) × (m.key ≡ some k)
    × (t : Text) × BodyOf m.payload m.len (ok t)
    × (r ≡ record { key = c_string k; headers = received_headers m.headers; body = t })

abbrev pub AllStored : List Message → List ReceivedMessage → Type 0
AllStored [] [] = Unit
AllStored [] (r ∷ l) = ⊥
AllStored (m ∷ ms) [] = ⊥
AllStored (m ∷ ms) (r ∷ l) = Stores m r × AllStored ms l

-- The specification: a list of received messages, to which a `consume` that answers `true` adds the
-- caller's object and no other operation adds one. Between two calls the caller may pass another
-- object.
pub data Session (env : Env) (c₀ : KafkaConsumer) (tr₀ : Trace)
    : List ReceivedMessage → KafkaConsumer → ReceivedMessage → Trace → Type 0 where
  opened : (r : ReceivedMessage) → Session env c₀ tr₀ [] c₀ r tr₀
  received :
      {l : List ReceivedMessage} {c : KafkaConsumer} {r : ReceivedMessage} {tr : Trace}
      (r' : ReceivedMessage) (tr' : Trace)
      → consume_message env c r tr ≡ ok (true, r', tr')
      → Session env c₀ tr₀ l c r tr
      → Session env c₀ tr₀ (r' ∷ l) c r' tr'
  missed :
      {l : List ReceivedMessage} {c : KafkaConsumer} {r : ReceivedMessage} {tr : Trace}
      (r' : ReceivedMessage) (tr' : Trace)
      → consume_message env c r tr ≡ ok (false, r', tr')
      → Session env c₀ tr₀ l c r tr
      → Session env c₀ tr₀ l c r' tr'
  other_object :
      {l : List ReceivedMessage} {c : KafkaConsumer} {r : ReceivedMessage} {tr : Trace}
      (r' : ReceivedMessage)
      → Session env c₀ tr₀ l c r tr
      → Session env c₀ tr₀ l c r' tr
  timed :
      {l : List ReceivedMessage} {c : KafkaConsumer} {r : ReceivedMessage} {tr : Trace} (t : ℤ)
      → Session env c₀ tr₀ l c r tr
      → Session env c₀ tr₀ l (set_poll_period t c) r tr
  debugged :
      {l : List ReceivedMessage} {c : KafkaConsumer} {r : ReceivedMessage} {tr : Trace} (b : Bool)
      → Session env c₀ tr₀ l c r tr
      → Session env c₀ tr₀ l (set_debug_mode b c) r tr
