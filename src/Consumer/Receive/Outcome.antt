-- ===== src/Consumer/Receive/Outcome.antt =====
-- What `consume` returns on each path, and what it reads from a message.
use mathlib.Core.Path.{subst}
use kafka_client.Base.{
  ℕ, ◌≤◌, ◌<◌, ◌≡◌, refl, ◌∙◌, ap, ◌⊎◌, inl, inr, ◌≢◌, Bool, true, false, Option, none, some,
  Option-cases, List, [], ◌∷◌, if◌then◌else◌, arith, length, take-length, ◌^◌, ◌%◌,
}
use mathlib.Core.Option.{or_else}
use kafka_client.Base.Text.{Text, c_string, text_eq}
use kafka_client.Base.Map.{Map, lookup, insert, lookup-insert, IsAscending, insert-IsAscending}
use kafka_client.Kafka.{
  Env, Trace, fresh, delete_message, Message, Header, ErrorCode, LocalError, BrokerError, ok, fault,
  null_pointer, buffer_overflow, alive, IsSafe, needed,
}
use kafka_client.ReceivedMessage.{ReceivedMessage}
use kafka_client.Consumer.State.{KafkaConsumer}
use kafka_client.Consumer.Body.{copy_body, body_size}
use kafka_client.Consumer.Body.Copied.{copied, copy_body_lem, Copies}
use kafka_client.Consumer.Receive.{
  is_received, collect, received_headers, fill, receive, consume_message, next_message,
}

-- The value that the last header of a key has, among those with a value, both read as C strings.
abbrev pub last_value : Text → List Header → Option Text
last_value k [] = none
last_value k (h ∷ hs) = or_else (last_value k hs) (elim h.value [
  | none ↦ none
  | some v ↦ if text_eq (c_string h.key) k then some (c_string v) else none
])

lookup-collect :
    (k : Text) (hs : List Header) (m : Map)
    → lookup k (collect hs m) ≡ or_else (last_value k hs) (lookup k m)
unfolding collect or_else
lookup-collect k [] m = refl
lookup-collect k (h ∷ hs) m = elim (Option-cases h.value) [
  | inl absent ↦ rw absent (ground (arith, lookup-collect k hs m))
  | inr (v, present) ↦ rw present (
      ground (
        arith,
        lookup-collect k hs (insert (c_string h.key) (c_string v) m),
        lookup-insert (c_string h.key) k (c_string v) m,
      ))
]

collect-IsAscending : (hs : List Header) (m : Map) → IsAscending m → IsAscending (collect hs m)
unfolding collect
collect-IsAscending [] m a = a
collect-IsAscending (h ∷ hs) m a = elim (Option-cases h.value) [
  | inl absent ↦ rw absent (collect-IsAscending hs m a)
  | inr (v, present) ↦
      rw present (collect-IsAscending hs _ (insert-IsAscending (c_string h.key) (c_string v) m a))
]

-- The map of a received message has, at each key, the last header of that key that has a value;
-- its keys ascend, so none stands twice.
pub received_headers-lookup :
    (hs : List Header)
    → IsAscending (received_headers (some hs))
      × ((k : Text) → lookup k (received_headers (some hs)) ≡ last_value k hs)
unfolding lookup or_else
received_headers-lookup hs =
    (collect-IsAscending hs [] tt, λ k. rw (lookup-collect k hs []) (ground arith))

-- What `fill` needs to come to an end.
abbrev pub Readable : Message → Text → Text → Type 0
Readable m k t =
    (m.key ≡ some k)
    × (m.payload ≡ some t)
    × (m.len ≡ length t)
    × (length t ≤ body_size)
    × (length (c_string t) < body_size)

abbrev pub contents_of : Message → Text → Text → ReceivedMessage
contents_of m k t = record {
  key = c_string k;
  headers = received_headers m.headers;
  body = c_string t;
}

copy_body-fits :
    (size : ℕ) (t : Text)
    → size < 2 ^ 31
    → length t ≤ size
    → length (c_string t) < size
    → copy_body size (some t) (length t) ≡ ok (c_string t)
copy_body-fits size t bounded small room = elim narrow [
  | inl (large, e) ↦ absurd (omega arith)
  | inr (inl (fits, full, e)) ↦ absurd (omega (arith, ap length whole))
  | inr (inr (fits, short, e)) ↦ e ∙ ap ok whole
]
  where
    narrow : Copies size (length t) t (copy_body size (some t) (length t))
    narrow =
        subst (λ n. Copies size n t (copy_body size (some t) (length t))) (omega arith)
          (copy_body_lem size (length t) t bounded).0

    whole : copied (length t) t ≡ c_string t
    whole = ap c_string (take-length t (length t) (omega arith))

fill-Readable :
    (m : Message) (r : ReceivedMessage) (k t : Text)
    → Readable m k t
    → fill m r ≡ ok (contents_of m k t)
unfolding fill
fill-Readable m r k t (has_key, has_payload, len, small, room) =
    rw (has_key, has_payload, len, copy_body-fits body_size t (omega arith) small room)

pub is_received-cases :
    (e : ErrorCode) → (e ≡ ErrorCode.broker BrokerError.no_error) ⊎ (is_received e ≡ false)
unfolding is_received
is_received-cases (ErrorCode.broker BrokerError.no_error) = inl refl
is_received-cases (ErrorCode.local LocalError.timed_out) = inr refl
is_received-cases e = inr refl

is_received-ne : (e : ErrorCode) → e ≢ ErrorCode.broker BrokerError.no_error → is_received e ≡ false
is_received-ne e ne = elim (is_received-cases e) [ inl same ↦ absurd (ne same) | inr h ↦ h ]

pub is_received-no_error : is_received (ErrorCode.broker BrokerError.no_error) ≡ true
unfolding is_received
is_received-no_error = refl

pub received :
    (env : Env) (c : KafkaConsumer) (tr : Trace)
    → (env.consume tr c.poll_period).err ≡ ErrorCode.broker BrokerError.no_error
    → is_received (env.consume tr c.poll_period).err ≡ true
received env c tr good = ap is_received good ∙ is_received-no_error

fill_keyless : (m : Message) (r : ReceivedMessage) → m.key ≡ none → fill m r ≡ fault null_pointer
unfolding fill
fill_keyless m r e = rw e

fill_overflows :
    (m : Message) (r : ReceivedMessage) (k t : Text)
    → m.key ≡ some k
    → m.payload ≡ some t
    → body_size < m.len % 2 ^ 32
    → fill m r ≡ fault buffer_overflow
unfolding fill
fill_overflows m r k t has_key has_payload large = rw (has_key, has_payload, overflow)
  where
    overflow : copy_body body_size (some t) m.len ≡ fault buffer_overflow
    overflow = elim (copy_body_lem body_size m.len t (omega arith)).0 [
      | inl (_, e) ↦ e
      | inr (inl (fits, _, _)) ↦ absurd (omega arith)
      | inr (inr (fits, _, _)) ↦ absurd (omega arith)
    ]

module _ (env : Env) where
  -- On a consumer: a message that is an error, a timeout among them, is answered by `false`; the
  -- object of the caller keeps what it held, and the message is deleted.
  pub consume_message_error :
      (c : KafkaConsumer) (r : ReceivedMessage) (tr : Trace) (h : ℕ)
      → c.consumer ≡ some h
      → (env.consume tr c.poll_period).err ≢ ErrorCode.broker BrokerError.no_error
      → consume_message env c r tr
        ≡ ok (false, r, delete_message (fresh tr) ∷ (next_message env c h tr).1)
  unfolding consume_message
  consume_message_error c r tr h e failed =
      rw (e, is_received-ne (env.consume tr c.poll_period).err failed)

  -- On a consumer: a message without an error, with a key and a payload that fits the buffer up to
  -- its first NUL, is answered by `true` and deleted, and its key, headers and body are stored,
  -- each text up to its first NUL.
  pub consume_message-Readable :
      (c : KafkaConsumer) (r : ReceivedMessage) (tr : Trace) (h : ℕ) (k t : Text)
      → c.consumer ≡ some h
      → (env.consume tr c.poll_period).err ≡ ErrorCode.broker BrokerError.no_error
      → Readable (env.consume tr c.poll_period) k t
      → consume_message env c r tr
        ≡ ok (
          true,
          contents_of (env.consume tr c.poll_period) k t,
          delete_message (fresh tr) ∷ (next_message env c h tr).1,
        )
  unfolding consume_message
  consume_message-Readable c r tr h k t e good readable = rw (
    e,
    received env c tr good,
    receive,
    fill-Readable (env.consume tr c.poll_period) r k t readable,
  )

  -- On a consumer: a message without an error and without a key makes `consume` follow a null
  -- pointer.
  pub consume_message_keyless :
      (c : KafkaConsumer) (r : ReceivedMessage) (tr : Trace) (h : ℕ)
      → c.consumer ≡ some h
      → (env.consume tr c.poll_period).err ≡ ErrorCode.broker BrokerError.no_error
      → (env.consume tr c.poll_period).key ≡ none
      → consume_message env c r tr ≡ fault null_pointer
  unfolding consume_message
  consume_message_keyless c r tr h e good keyless =
      rw (e, received env c tr good, receive, fill_keyless (env.consume tr c.poll_period) r keyless)

  -- On a consumer: a message without an error, with a key and a payload whose length, modulo 2^32, is more
  -- than 1024 * 1024 bytes, makes `consume` write past its buffer.
  pub consume_message_overflows :
      (c : KafkaConsumer) (r : ReceivedMessage) (tr : Trace) (h : ℕ) (k t : Text)
      → c.consumer ≡ some h
      → (env.consume tr c.poll_period).err ≡ ErrorCode.broker BrokerError.no_error
      → (env.consume tr c.poll_period).key ≡ some k
      → (env.consume tr c.poll_period).payload ≡ some t
      → body_size < (env.consume tr c.poll_period).len % 2 ^ 32
      → consume_message env c r tr ≡ fault buffer_overflow
  unfolding consume_message
  consume_message_overflows c r tr h k t e good has_key has_payload large = rw (
    e,
    received env c tr good,
    receive,
    fill_overflows (env.consume tr c.poll_period) r k t has_key has_payload large,
  )

  -- When `consume` returns, it has made two calls.
  pub consume_message-calls :
      (c : KafkaConsumer) (r r' : ReceivedMessage) (b : Bool) (tr tr' : Trace) (h : ℕ)
      → c.consumer ≡ some h
      → consume_message env c r tr ≡ ok (b, r', tr')
      → tr' ≡ delete_message (fresh tr) ∷ (next_message env c h tr).1
  unfolding consume_message
  consume_message-calls c r r' b tr tr' h e done = ground arith

  -- Whenever `consume` on a consumer that exists returns, it has deleted the one message that it
  -- was given, and no other object; no call used an object that was gone.
  pub consume_message-deletes :
      (c : KafkaConsumer) (r r' : ReceivedMessage) (b : Bool) (tr tr' : Trace) (h : ℕ)
      → c.consumer ≡ some h
      → IsSafe tr
      → alive h tr ≡ true
      → consume_message env c r tr ≡ ok (b, r', tr')
      → IsSafe tr'
        × (alive (fresh tr) tr' ≡ false)
        × ((j : ℕ) → j ≢ fresh tr → alive j tr' ≡ alive j tr)
  unfolding alive needed
  consume_message-deletes c r r' b tr tr' h e safe live done =
      rw (consume_message-calls c r r' b tr tr' h e done) (ground arith)
