-- ===== src/Producer/Session.antt =====
-- A producer between `initKafka` and `closeKafka`: what an application has handed over in between.
pub mod Outbox
pub mod Objects
pub mod Started
pub mod Closed
pub mod Life
pub mod Leaks
pub mod Retried
use kafka_client.Base.{ℕ, ◌^◌, ◌<◌, ◌≡◌, Bool, true, false, List, [], ◌∷◌, if◌then◌else◌, some}
use kafka_client.Base.Int.{ℤ}
use kafka_client.Base.Text.{Text}
use kafka_client.Kafka.{Env, Call, Trace, fresh, headers_create, produce, is_no_error, ok, poll}
use kafka_client.KafkaMessage.{KafkaMessage}
use kafka_client.Producer.State.{KafkaProducer, set_topic, set_debug_mode}
use kafka_client.Producer.Send.Outcome.{prepared}
use kafka_client.Producer.Clock.{milliseconds}
use kafka_client.Producer.Send.{send}
use kafka_client.Producer.Lifecycle.{poll_event}

-- What the application means to send: a topic, a key and contents, with the headers that the
-- library has accepted.
pub record Posted : Type 0 where
  pub topic : Text
  pub key : Text
  pub contents : Text
  pub headers : List (Text × Text)

-- The library has taken over a message if `produce` has answered that there was no error.
abbrev pub taken_by : Call → List Posted → List Posted
taken_by (produce h r e) l =
    if is_no_error e
    then record { topic = r.topic; key = r.key; contents = r.payload; headers = r.header_list } ∷ l
    else l
taken_by _ l = l

-- The messages that the library has taken over, the last one first.
abbrev pub outbox : Trace → List Posted
outbox [] = []
outbox (c ∷ tr) = taken_by c (outbox tr)

abbrev pub posted : KafkaProducer → KafkaMessage → List (Text × Text) → Posted
posted p m hs = record { topic = p.topic; key = m.key; contents = m.contents; headers = hs }

-- The specification: a list of messages, to which a `send` that answers `true` adds its message and
-- no other operation adds one. The clock is at a time that the code can print. The operations have
-- returned; the thread of `eventPollingThread` polls between them as long as `bRun` is set.
pub data Session (env : Env) (p₀ : KafkaProducer) (tr₀ : Trace)
    : List Posted → KafkaProducer → Trace → Type 0 where
  opened : Session env p₀ tr₀ [] p₀ tr₀
  accepted :
      {l : List Posted} {p : KafkaProducer} {tr : Trace} (m : KafkaMessage) (tr' : Trace)
      → milliseconds (env.gettimeofday (headers_create (fresh tr) ∷ tr) 0) < 2 ^ 63
      → send env p m tr ≡ ok (true, tr')
      → Session env p₀ tr₀ l p tr
      → Session env p₀ tr₀ (posted p m (prepared env p m tr).0 ∷ l) p tr'
  rejected :
      {l : List Posted} {p : KafkaProducer} {tr : Trace} (m : KafkaMessage) (tr' : Trace)
      → milliseconds (env.gettimeofday (headers_create (fresh tr) ∷ tr) 0) < 2 ^ 63
      → send env p m tr ≡ ok (false, tr')
      → Session env p₀ tr₀ l p tr
      → Session env p₀ tr₀ l p tr'
  -- The polling thread calls `poll` between any two calls of the application.
  background :
      {l : List Posted} {p : KafkaProducer} {tr : Trace} (h : ℕ)
      → p.event_poll.run ≡ true
      → p.event_poll.producer ≡ some h
      → Session env p₀ tr₀ l p tr
      → Session env p₀ tr₀ l p (poll h p.event_poll.time_out ∷ tr)
  polled :
      {l : List Posted} {p : KafkaProducer} {tr : Trace} (time_out : ℤ)
      → Session env p₀ tr₀ l p tr
      → Session env p₀ tr₀ l p (poll_event env time_out p tr).1
  named :
      {l : List Posted} {p : KafkaProducer} {tr : Trace} (t : Text)
      → Session env p₀ tr₀ l p tr
      → Session env p₀ tr₀ l (set_topic t p) tr
  debugged :
      {l : List Posted} {p : KafkaProducer} {tr : Trace} (b : Bool)
      → Session env p₀ tr₀ l p tr
      → Session env p₀ tr₀ l (set_debug_mode b p) tr
