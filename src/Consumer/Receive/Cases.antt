-- ===== src/Consumer/Receive/Cases.antt =====
-- `consume` on every path, from the null pointer of a consumer that was not created to the body
-- that fills its buffer.
use kafka_client.Base.{
  ℕ, ◌≡◌, refl, ◌≢◌, ◌⊎◌, inl, inr, true, false, Option, none, some, Option-cases, [], ◌∷◌, arith,
  sym, ap, ◌∙◌, ◌^◌, ◌%◌,
}
use kafka_client.Base.Text.{Text, c_string}
use kafka_client.Kafka.{
  Env, Trace, fresh, delete_message, Message, ErrorCode, BrokerError, Result, ok, fault,
  null_pointer, ◌>>=◌, running,
}
use kafka_client.ReceivedMessage.{ReceivedMessage}
use kafka_client.Consumer.State.{KafkaConsumer}
use kafka_client.Consumer.Body.{copy_body, body_size}
use kafka_client.Consumer.Body.Copied.{copy_body_lem, Copies}
use kafka_client.Consumer.Receive.{
  is_received, received_headers, fill, receive, consume_message, next_message,
}
use kafka_client.Consumer.Receive.Outcome.{
  received, is_received-cases, is_received-no_error, consume_message_error, consume_message_keyless,
}

-- The body of a message, by its payload and its length modulo 2^32: what is copied up to the first NUL, or
-- what is undefined about it.
abbrev pub BodyOf : Option Text → ℕ → Result Text → Type 0
BodyOf none n b = b ≡ fault null_pointer
BodyOf (some t) n b = Copies body_size (n % 2 ^ 32) t b

copy_body-BodyOf : (p : Option Text) (n : ℕ) → BodyOf p n (copy_body body_size p n)
copy_body-BodyOf none n = (copy_body_lem body_size n [] (omega arith)).1
copy_body-BodyOf (some t) n = (copy_body_lem body_size n t (omega arith)).0

-- What `consume` makes of the message that a consumer was given.
abbrev pub Consumed : Env → KafkaConsumer → ReceivedMessage → Trace → ℕ → Type 0
Consumed env c r tr h =
    let (m, calls) = next_message env c h tr in
    let result = consume_message env c r tr in
    let calls' = delete_message (fresh tr) ∷ calls in
    ((m.err ≢ ErrorCode.broker BrokerError.no_error) × (result ≡ ok (false, r, calls')))
    ⊎ ((m.err ≡ ErrorCode.broker BrokerError.no_error)
        × (m.key ≡ none)
        × (result ≡ fault null_pointer))
    ⊎ ((m.err ≡ ErrorCode.broker BrokerError.no_error)
        × (k : Text) × (m.key ≡ some k)
        × (b : Result Text) × BodyOf m.payload m.len b
        × (result ≡ (
            b >>= λ t. ok (
              true,
              record { key = c_string k; headers = received_headers m.headers; body = t },
              calls',
            ))))

fill_keyed :
    (m : Message) (r : ReceivedMessage) (k : Text)
    → m.key ≡ some k
    → fill m r ≡ (
        copy_body body_size m.payload m.len >>= λ t.
        ok (record { key = c_string k; headers = received_headers m.headers; body = t }))
unfolding fill
fill_keyed m r k e = rw e

>>=-assoc :
    {A B C : Type 0} (m : Result A) (f : A → Result B) (g : B → Result C)
    → ((m >>= f) >>= g) ≡ (m >>= λ a. f a >>= g)
>>=-assoc (ok a) f g = refl
>>=-assoc (fault e) f g = refl
>>=-assoc running f g = refl

module _ (env : Env) (c : KafkaConsumer) (r : ReceivedMessage) (tr : Trace) (h : ℕ)
    (found : c.consumer ≡ some h) where
  consume_message_keyed :
      (k : Text)
      → (env.consume tr c.poll_period).err ≡ ErrorCode.broker BrokerError.no_error
      → (env.consume tr c.poll_period).key ≡ some k
      → let (m, calls) = next_message env c h tr in
        consume_message env c r tr ≡ (
          copy_body body_size m.payload m.len >>= λ t. ok (
            true,
            record { key = c_string k; headers = received_headers m.headers; body = t },
            delete_message (fresh tr) ∷ calls,
          ))
  unfolding consume_message
  consume_message_keyed k good keyed =
      rw
        (
          found,
          received env c tr good,
          receive,
          fill_keyed (env.consume tr c.poll_period) r k keyed,
        )
        (>>=-assoc
          (copy_body body_size (env.consume tr c.poll_period).payload
            (env.consume tr c.poll_period).len)
          _ _)

  consume_message-Consumed : Consumed env c r tr h
  consume_message-Consumed = elim (is_received-cases (env.consume tr c.poll_period).err) [
    | inr failed ↦
        let err : (env.consume tr c.poll_period).err ≢ ErrorCode.broker BrokerError.no_error =
          λ q. true_false (sym is_received-no_error ∙ ap is_received (sym q) ∙ failed) in
        inl (err, consume_message_error env c r tr h found err)
    | inl good ↦ elim (Option-cases (env.consume tr c.poll_period).key) [
      | inl keyless ↦
          inr (inl (good, keyless, consume_message_keyless env c r tr h found good keyless))
      | inr (k, keyed) ↦ inr (
          inr (
            good,
            k,
            keyed,
            _,
            copy_body-BodyOf (env.consume tr c.poll_period).payload
                (env.consume tr c.poll_period).len,
            consume_message_keyed k good keyed,
          ))
    ]
  ]
    where
      true_false : true ≡ false → ⊥
      true_false q = cc

-- `consume` on every path. Without a consumer it follows a null pointer. A message that is an error
-- is answered by `false`, is deleted, and leaves the caller's object as it was. A message without a
-- key makes it follow a null pointer. Any other is answered by `true` and deleted, and its key, its
-- headers and the copied part of its payload are stored, unless the payload is missing, its length
-- modulo 2^32 is more than the buffer has, or it fills the buffer without a NUL, each of which is
-- undefined.
pub consume_message_lem :
    (env : Env) (c : KafkaConsumer) (r : ReceivedMessage) (tr : Trace)
    → ((c.consumer ≡ none) × (consume_message env c r tr ≡ fault null_pointer))
      ⊎ ((h : ℕ) × (c.consumer ≡ some h) × Consumed env c r tr h)
unfolding consume_message
consume_message_lem env c r tr = elim (Option-cases c.consumer) [
  | inl missing ↦ inl (missing, rw missing)
  | inr (h, found) ↦ inr (h, found, consume_message-Consumed env c r tr h found)
]
