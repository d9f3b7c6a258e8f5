-- ===== src/RoundTrip/Received.antt =====
-- What was sent is what is received.
use mathlib.Core.Path.{subst}
use kafka_client.Base.{
  ℕ, ◌^◌, ◌<◌, ◌≡◌, refl, sym, ap, ◌∙◌, inl, inr, none, some, List, [], true, ◌∷◌, arith, length,
}
use mathlib.Core.Option.{or_else, some-injective}
use kafka_client.Base.Text.{Text, text_eq, c_string, IsCString, c_string-eq_self}
use kafka_client.Base.Decimal.{show_nat, show_int, show_nat-IsCString, show_int-IsCString}
use kafka_client.Base.Map.{lookup}
use kafka_client.Kafka.{Env, Trace, TimeVal, fresh, headers_create, delete_message, ok}
use kafka_client.KafkaMessage.{KafkaMessage}
use kafka_client.ReceivedMessage.{ReceivedMessage}
use kafka_client.Producer.State.{KafkaProducer}
use kafka_client.Producer.Clock.{milliseconds}
use kafka_client.Producer.Uuid.{get_random_uuid}
use kafka_client.Producer.Uuid.Shape.{get_random_uuid-fits}
use kafka_client.Producer.Headers.{
  headers_message_id, headers_timestamp, headers_command, headers_message_version,
  headers_content_type, headers_user_agent,
}
use kafka_client.Producer.Headers.Written.{Fits5, header_list, AllAdded, all_added-AllAdded}
use kafka_client.Producer.Send.{produce_with, send}
use kafka_client.Producer.Send.Outcome.{prepared, send_parts, handed, Hands, produce_with-Hands}
use kafka_client.Consumer.State.{KafkaConsumer}
use kafka_client.Consumer.Body.{body_size}
use kafka_client.Consumer.Receive.{received_headers, consume_message, next_message}
use kafka_client.Consumer.Receive.Outcome.{
  last_value, received_headers-lookup, contents_of, consume_message-Readable,
}
use kafka_client.RoundTrip.{headers_of, Delivers}

-- The texts of a message that a C string can carry, and a body that fits the consumer's buffer.
pub record IsPlain (m : KafkaMessage) (agent : Text) : Type 0 where
  pub key : IsCString m.key
  pub command : IsCString m.command
  pub content_type : IsCString m.content_type
  pub contents : IsCString m.contents
  pub user_agent : IsCString agent
  pub small : length m.contents < body_size

-- The received headers have what was sent at each of the six keys.
abbrev pub HasHeaders : (id : Text) → TimeVal → KafkaMessage → Text → ReceivedMessage → Type 0
HasHeaders id t m agent r =
    (lookup headers_message_id r.headers ≡ some id)
    × (lookup headers_timestamp r.headers ≡ some (show_nat (milliseconds t)))
    × (lookup headers_command r.headers ≡ some m.command)
    × (lookup headers_message_version r.headers ≡ some (show_int m.version))
    × (lookup headers_content_type r.headers ≡ some m.content_type)
    × (lookup headers_user_agent r.headers ≡ some agent)

last_values :
    (id stamp command version type agent : Text)
    → let hs = headers_of (
        (headers_message_id, id)
        ∷ (headers_timestamp, stamp)
        ∷ (headers_command, command)
        ∷ (headers_message_version, version)
        ∷ (headers_content_type, type)
        ∷ (headers_user_agent, agent)
        ∷ []) in
      (last_value headers_message_id hs ≡ some (c_string id))
      × (last_value headers_timestamp hs ≡ some (c_string stamp))
      × (last_value headers_command hs ≡ some (c_string command))
      × (last_value headers_message_version hs ≡ some (c_string version))
      × (last_value headers_content_type hs ≡ some (c_string type))
      × (last_value headers_user_agent hs ≡ some (c_string agent))
unfolding or_else text_eq c_string
last_values id stamp command version type agent = (refl, refl, refl, refl, refl, refl)

module _ (env : Env) (p : KafkaProducer) (m : KafkaMessage) (tr : Trace) where
  -- The calls after which `send` reads the clock: first for the timestamp, then for the id.
  abbrev pub asked : Trace
  asked = headers_create (fresh tr) ∷ tr

  abbrev pub sent_headers : List (Text × Text)
  sent_headers =
      header_list (get_random_uuid env (env.gettimeofday asked 1)) (env.gettimeofday asked 0) m
        p.user_agent

  -- The time is one that the code can print, the version fits its buffer, the producer has been
  -- created, and the library accepts every header.
  pub record IsSendable (h : ℕ) : Type 0 where
    pub producer : p.producer ≡ some h
    pub clock : milliseconds (env.gettimeofday asked 0) < 2 ^ 63
    pub version : Fits5 m.version
    pub added : AllAdded env (fresh tr) sent_headers ([], asked)

  pub sends :
      (h : ℕ)
      → IsSendable h
      → send env p m tr
        ≡ ok (produce_with env m p.topic (fresh tr) sent_headers h (prepared env p m tr).1)
  sends h s = elim (send_parts env p m tr s.clock) [
    | inl (large, e) ↦ absurd (large s.version)
    | inr (inl (fits, missing, e)) ↦ absurd (none_some (sym missing ∙ s.producer))
    | inr (inr (fits, j, found, e)) ↦
        rw
          (
            e,
            some-injective j h (sym found ∙ s.producer),
            all_added-AllAdded env (fresh tr) sent_headers [] asked s.added,
          )
          refl
  ]
    where
      none_some : none ≡ some h → ⊥
      none_some q = cc

  -- The headers that were sent, as a received message has them.
  HasHeaders-sent :
      (r : ReceivedMessage)
      → IsPlain m p.user_agent
      → r.headers ≡ received_headers (some (headers_of sent_headers))
      → HasHeaders
          (get_random_uuid env (env.gettimeofday asked 1))
          (env.gettimeofday asked 0)
          m
          p.user_agent
          r
  HasHeaders-sent r plain e =
      let (id, stamp, command, version, type, agent) = last_values _ _ _ _ _ _ in
      (
        found _ _ id (get_random_uuid-fits env (env.gettimeofday asked 1)).2,
        found _ _ stamp (show_nat-IsCString (milliseconds (env.gettimeofday asked 0))),
        found _ _ command plain.command,
        found _ _ version (show_int-IsCString m.version),
        found _ _ type plain.content_type,
        found _ _ agent plain.user_agent,
      )
    where
      found :
          (k v : Text)
          → last_value k (headers_of sent_headers) ≡ some (c_string v)
          → IsCString v
          → lookup k r.headers ≡ some v
      found k v h plain_text =
          ap (lookup k) e
          ∙ (received_headers-lookup (headers_of sent_headers)).1 k
          ∙ h
          ∙ ap some (c_string-eq_self v plain_text)

  pub sends-Hands :
      (h : ℕ)
      → IsSendable h
      → Hands env h (handed p m (fresh tr) sent_headers) (prepared env p m tr).1 (send env p m tr)
  sends-Hands h s =
      subst (Hands env h (handed p m (fresh tr) sent_headers) (prepared env p m tr).1)
        (sym (sends h s))
        (produce_with-Hands env p m (fresh tr) sent_headers h (prepared env p m tr).1)

  -- A message of plain texts that the library lets be sent, with a version from -999 to 9999 and
  -- every header accepted, is handed to the producer with its topic, key and contents and the six
  -- headers in one call of `produce`, and `send` answers whether there was no error; and when the
  -- library gives a consumer the message with the arguments of that call, `consume` answers `true`
  -- with the same key and body, with the id, the time and the other four values at the six header
  -- keys, whatever the caller's object held before.
  pub send-consume :
      (h j : ℕ) (env' : Env) (c : KafkaConsumer) (r : ReceivedMessage) (tr' : Trace)
      → IsSendable h
      → IsPlain m p.user_agent
      → c.consumer ≡ some j
      → Delivers (handed p m (fresh tr) sent_headers) (env'.consume tr' c.poll_period)
      → Hands env h (handed p m (fresh tr) sent_headers) (prepared env p m tr).1 (send env p m tr)
        × (r' : ReceivedMessage) × (consume_message env' c r tr'
            ≡ ok (true, r', delete_message (fresh tr') ∷ (next_message env' c j tr').1))
        × (r'.key ≡ m.key)
        × (r'.body ≡ m.contents)
        × HasHeaders
            (get_random_uuid env (env.gettimeofday asked 1))
            (env.gettimeofday asked 0)
            m
            p.user_agent
            r'
  send-consume h j env' c r tr' sendable plain there d = (
    sends-Hands h sendable,
    contents_of (env'.consume tr' c.poll_period) m.key m.contents,
    consume_message-Readable env' c r tr' j m.key m.contents there d.err (
      d.key,
      d.payload,
      d.len,
      omega (arith, plain.small),
      rw (c_string-eq_self m.contents plain.contents) plain.small,
    ),
    c_string-eq_self m.key plain.key,
    c_string-eq_self m.contents plain.contents,
    HasHeaders-sent (contents_of (env'.consume tr' c.poll_period) m.key m.contents) plain
        (ap received_headers d.headers),
  )
