-- ===== src/Consumer/Session/Inbox.antt =====
-- What a consumer has received is what the library has given.
use kafka_client.Base.{
  ℕ, ◌≡◌, refl, sym, ◌∙◌, ap, ◌⊎◌, ◌≢◌, inl, inr, Bool, true, false, some, ◌∷◌, List, [], ◌++◌,
  if◌then◌else◌,
}
use mathlib.Core.Path.{subst}
use kafka_client.Base.Text.{Text, c_string}
use kafka_client.Kafka.{
  fault-ok, Env, Trace, fresh, delete_message, Message, ErrorCode, BrokerError, is_no_error, Result,
  ok, ok-injective, >>=-eq-ok,
}
use kafka_client.ReceivedMessage.{ReceivedMessage}
use kafka_client.Consumer.State.{KafkaConsumer}
use kafka_client.Consumer.Receive.{consume_message, next_message, received_headers}
use kafka_client.Consumer.Receive.Cases.{BodyOf, consume_message_lem}
use kafka_client.Consumer.Session.{
  Stores, AllStored, inbox, Session, opened, received, missed, other_object, timed, debugged,
}

error-cases :
    (e : ErrorCode) → (e ≡ ErrorCode.broker BrokerError.no_error) ⊎ (is_no_error e ≡ false)
error-cases (ErrorCode.broker BrokerError.no_error) = inl refl
error-cases (ErrorCode.local e) = inr refl
error-cases (ErrorCode.broker e) = inr refl

-- What a `consume` that has returned was given, and what it has made of it.
abbrev pub Outcome :
    Env → KafkaConsumer → ReceivedMessage → Trace → Bool × ReceivedMessage × Trace → Type 0
Outcome env c r tr (b, r', tr') =
    let m = env.consume tr c.poll_period in
    (h : ℕ) × (c.consumer ≡ some h)
    × (tr' ≡ delete_message (fresh tr) ∷ (next_message env c h tr).1)
    × (((is_no_error m.err ≡ false) × (b ≡ false) × (r' ≡ r))
        ⊎ ((is_no_error m.err ≡ true) × (b ≡ true) × Stores m r'))

module _ (env : Env) where
  pub consume_message-Outcome :
      (c : KafkaConsumer) (r r' : ReceivedMessage) (b : Bool) (tr tr' : Trace)
      → consume_message env c r tr ≡ ok (b, r', tr')
      → Outcome env c r tr (b, r', tr')
  consume_message-Outcome c r r' b tr tr' e = elim (consume_message_lem env c r tr) [
    | inl (missing, f) ↦ absurd (fault-ok (sym f ∙ e))
    | inr (h, found, inl (err, f)) ↦
        subst (Outcome env c r tr) (ok-injective (sym f ∙ e))
          (h, found, refl, inl (not_fine err, refl, refl))
    | inr (h, found, inr (inl (fine, keyless, f))) ↦ absurd (fault-ok (sym f ∙ e))
    | inr (h, found, inr (inr (fine, k, keyed, body, is_body, f))) ↦
        let (t, copied, done) = >>=-eq-ok body (stored h k) (sym f ∙ e) in
        subst (Outcome env c r tr) (ok-injective done) (
          h,
          found,
          refl,
          inr (
            ap is_no_error fine,
            refl,
            (k, keyed, t, subst (BodyOf m.payload m.len) copied is_body, refl),
          ),
        )
  ]
    where
      m : Message
      m = env.consume tr c.poll_period

      stored : ℕ → Text → Text → Result (Bool × ReceivedMessage × Trace)
      stored h k t = ok (
        true,
        record { key = c_string k; headers = received_headers m.headers; body = t },
        delete_message (fresh tr) ∷ (next_message env c h tr).1,
      )

      not_fine : m.err ≢ ErrorCode.broker BrokerError.no_error → is_no_error m.err ≡ false
      not_fine ne = elim (error-cases m.err) [ inl same ↦ absurd (ne same) | inr h ↦ h ]

-- What was given after some calls: those messages, and what was received of them.
abbrev Received : Trace → List ReceivedMessage → Trace → Type 0
Received tr₀ l tr = (ms : List Message) × (inbox tr ≡ ms ++ inbox tr₀) × AllStored ms l

Received-consumed :
    (env : Env) (tr₀ tr tr' : Trace) (l : List ReceivedMessage) (c : KafkaConsumer)
    (r r' : ReceivedMessage) (b : Bool)
    → consume_message env c r tr ≡ ok (b, r', tr')
    → Received tr₀ l tr
    → Received tr₀ (if b then r' ∷ l else l) tr'
Received-consumed env tr₀ tr tr' l c r r' b e (ms, given, stored) =
    let (h, found, calls, outcome) = consume_message-Outcome env c r r' b tr tr' e in
    elim outcome [
      | inl (failed, not_got, same) ↦ rw (not_got, calls) (ms, rw failed given, stored)
      | inr (fine, got, stores) ↦
          rw (got, calls)
            (m ∷ ms, rw fine (ap (λ (l : List Message). m ∷ l) given), (stores, stored))
    ]
  where
    m : Message
    m = env.consume tr c.poll_period

-- In a session of operations that have returned, the messages that the library has given without an
-- error since it was opened are exactly those that the caller has received, each once and in their
-- order: of each, the caller's object had the key and the copied part of the payload as C strings,
-- and the headers that `received_headers` makes of the message's.
pub Session-inbox :
    {env : Env} {c₀ : KafkaConsumer} {tr₀ : Trace} {l : List ReceivedMessage} {c : KafkaConsumer}
    {r : ReceivedMessage} {tr : Trace}
    → Session env c₀ tr₀ l c r tr
    → (ms : List Message) × (inbox tr ≡ ms ++ inbox tr₀) × AllStored ms l
Session-inbox (opened r) = ([], refl, tt)
Session-inbox {env} {c₀} {tr₀} (received {l = l} {c = c} {r = r} {tr = tr} r' tr' e s) =
    Received-consumed env tr₀ tr tr' l c r r' true e (Session-inbox s)
Session-inbox {env} {c₀} {tr₀} (missed {l = l} {c = c} {r = r} {tr = tr} r' tr' e s) =
    Received-consumed env tr₀ tr tr' l c r r' false e (Session-inbox s)
Session-inbox (other_object r' s) = Session-inbox s
Session-inbox (timed t s) = Session-inbox s
Session-inbox (debugged b s) = Session-inbox s
