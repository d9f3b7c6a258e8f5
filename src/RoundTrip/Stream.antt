-- ===== src/RoundTrip/Stream.antt =====
-- A whole stream of messages, from the sends of a producer to what a consumer has received.
use kafka_client.Base.{
  ◌≡◌, refl, sym, ◌∙◌, ap, inl, inr, some, List, [], ◌∷◌, ◌++◌, length, take-length, arith, ◌<◌,
  ◌^◌, ◌%◌,
}
use mathlib.Core.List.{append-nil}
use mathlib.Core.Option.{some-injective}
use mathlib.Core.Path.{subst}
use kafka_client.Base.Map.{Map}
use kafka_client.Base.Text.{Text, c_string, IsCString, c_string-eq_self}
use kafka_client.Kafka.{Env, Trace, Message, Result, Fault, ok, fault, ok-injective}
use kafka_client.ReceivedMessage.{ReceivedMessage}
use kafka_client.Producer.State.{KafkaProducer}
use kafka_client.Producer.Session as Sending
use kafka_client.Producer.Session.{Posted, outbox}
use kafka_client.Producer.Session.Outbox.{Session-outbox}
use kafka_client.Consumer.Receive.{received_headers}
use kafka_client.Consumer.State.{KafkaConsumer}
use kafka_client.Consumer.Receive.Cases.{BodyOf}
use kafka_client.Consumer.Session as Receiving
use kafka_client.Consumer.Session.{Stores, AllStored, inbox}
use kafka_client.Consumer.Session.Inbox.{Session-inbox}
use kafka_client.RoundTrip.{headers_of}

-- A message with the key, the contents and the headers that were posted.
abbrev pub Carries : Posted → Message → Type 0
Carries p m =
    (m.key ≡ some p.key)
    × (m.payload ≡ some p.contents)
    × (m.len ≡ length p.contents)
    × (m.headers ≡ some (headers_of p.headers))

abbrev pub AllCarried : List Posted → List Message → Type 0
AllCarried [] [] = Unit
AllCarried [] (m ∷ ms) = ⊥
AllCarried (p ∷ ps) [] = ⊥
AllCarried (p ∷ ps) (m ∷ ms) = Carries p m × AllCarried ps ms

-- Texts that a C string can carry, with contents whose length has 32 bits.
abbrev pub AllPlain : List Posted → Type 0
AllPlain [] = Unit
AllPlain (p ∷ ps) =
    (IsCString p.key × IsCString p.contents × (length p.contents < 2 ^ 32)) × AllPlain ps

-- What a consumer is to see of what was posted: the key, the contents, and the map that it makes of
-- the headers.
abbrev pub sent_view : List Posted → List (Text × Text × Map)
sent_view [] = []
sent_view (p ∷ ps) =
    (p.key, p.contents, received_headers (some (headers_of p.headers))) ∷ sent_view ps

abbrev pub received_view : List ReceivedMessage → List (Text × Text × Map)
received_view [] = []
received_view (r ∷ l) = (r.key, r.body, r.headers) ∷ received_view l

stored_body :
    (t body : Text)
    → IsCString t
    → length t < 2 ^ 32
    → BodyOf (some t) (length t) (ok body)
    → body ≡ t
stored_body t body plain small (inl (large, e)) = absurd (ok_fault e)
  where
    ok_fault : {x : Fault} → ◌≡◌ {A = Result Text} (ok body) (fault x) → ⊥
    ok_fault q = cc
stored_body t body plain small (inr (inl (fits, full, e))) = absurd (ok_fault e)
  where
    ok_fault : {x : Fault} → ◌≡◌ {A = Result Text} (ok body) (fault x) → ⊥
    ok_fault q = cc
stored_body t body plain small (inr (inr (fits, short, e))) =
    ok-injective e
    ∙ ap c_string (take-length t (length t % 2 ^ 32) (omega arith))
    ∙ c_string-eq_self t plain

view-Stores :
    (p : Posted) (m : Message) (r : ReceivedMessage)
    → IsCString p.key
    → IsCString p.contents
    → length p.contents < 2 ^ 32
    → Carries p m
    → Stores m r
    → ◌≡◌ {A = Text × Text × Map}
        (r.key, r.body, r.headers)
        (p.key, p.contents, received_headers (some (headers_of p.headers)))
view-Stores p m r plain_key plain_contents small (key, payload, len, headers)
      (k, keyed, t, body, same) =
    let key_same : k ≡ p.key = some-injective k p.key (sym keyed ∙ key) in
    let body_same : t ≡ p.contents =
      stored_body p.contents t plain_contents small (rw (payload, len) at body) in
    rw (same, key_same, body_same, headers, c_string-eq_self p.key plain_key) refl

views-AllStored :
    (ps : List Posted) (ms : List Message) (l : List ReceivedMessage)
    → AllPlain ps
    → AllCarried ps ms
    → AllStored ms l
    → received_view l ≡ sent_view ps
views-AllStored [] [] [] plain carried stored = refl
views-AllStored [] [] (r ∷ l) plain carried stored = elim stored [ ]
views-AllStored [] (m ∷ ms) l plain carried stored = elim carried [ ]
views-AllStored (p ∷ ps) [] l plain carried stored = elim carried [ ]
views-AllStored (p ∷ ps) (m ∷ ms) [] plain carried stored = elim stored [ ]
views-AllStored (p ∷ ps) (m ∷ ms) (r ∷ l) plain carried stored =
    rw
      (
        view-Stores p m r plain.0.0 plain.0.1 plain.0.2 carried.0 stored.0,
        views-AllStored ps ms l plain.1 carried.1 stored.1,
      )
      refl

-- For a session of a producer, every `send` at a time whose milliseconds a `long long` holds, and
-- one of a consumer: if nothing was sent before the one and nothing given before the other, all
-- keys and contents can be C strings, the contents shorter than 2^32 bytes, and the library gives the consumer, without an error, exactly
-- the messages that it has taken over, in their order: the caller has received exactly the messages
-- whose `send` answered `true`, each once and in their order, with their keys and contents, and
-- with the map that `received_headers` makes of the headers that the library accepted.
pub Session-AllCarried :
    {env env' : Env} {p₀ p : KafkaProducer} {tr₀ tr : Trace} {c₀ c : KafkaConsumer}
    {r : ReceivedMessage} {tr₀' tr' : Trace} (ps : List Posted) (l : List ReceivedMessage)
    → Sending.Session env p₀ tr₀ ps p tr
    → Receiving.Session env' c₀ tr₀' l c r tr'
    → outbox tr₀ ≡ []
    → inbox tr₀' ≡ []
    → AllPlain ps
    → AllCarried (outbox tr) (inbox tr')
    → received_view l ≡ sent_view ps
Session-AllCarried ps l sending receiving none_sent none_given plain carried =
    let (ms, given, stored) = Session-inbox receiving in
    views-AllStored ps ms l plain
      (subst (λ x. AllCarried x ms)
        (Session-outbox sending ∙ ap (λ (x : List Posted). ps ++ x) none_sent ∙ append-nil ps)
        (subst (AllCarried _)
          (given ∙ ap (λ (x : List Message). ms ++ x) none_given ∙ append-nil ms) carried))
      stored
