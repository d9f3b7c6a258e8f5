-- ===== src/Producer/Send/Outcome.antt =====
-- What `send` answers, which calls it makes, and what becomes of the headers object.
use kafka_client.Base.Int.{negsuc}
use mathlib.Core.Path.{subst}
use kafka_client.Base.{
  ℕ, ◌^◌, ◌<◌, ◌≡◌, refl, ◌≢◌, ◌⊎◌, inl, inr, Bool, true, false, Bool-cases, Option-cases, none,
  some, List, [], ◌∷◌, arith, sym,
}
use kafka_client.Base.Text.{Text}
use kafka_client.Kafka.{
  Env, Trace, fresh, headers_create, is_no_error, ok, fault, null_pointer, buffer_overflow, alive,
  IsSafe, needed, Produced, produce, delete_headers, Result,
}
use kafka_client.KafkaMessage.{KafkaMessage, get_key, get_contents}
use kafka_client.Producer.State.{KafkaProducer, set_debug_mode}
use kafka_client.Producer.Clock.{milliseconds}
use kafka_client.Producer.Uuid.{get_random_uuid}
use kafka_client.Producer.Headers.Written.{Fits5, header_list, all_added, create_kafka_header_lem}
use kafka_client.Producer.Send.{produced, produce_with, send}

-- What is handed over: the topic, no choice of a partition, the contents, the key, no timestamp and
-- the headers.
abbrev pub handed : KafkaProducer → KafkaMessage → ℕ → List (Text × Text) → Produced
handed p m object hs = record {
  topic = p.topic;
  partition = negsuc 0;
  payload = m.contents;
  key = m.key;
  timestamp = 0;
  headers = object;
  header_list = hs;
}

module _ (env : Env) where
  -- The debug mode changes nothing of what is sent.
  pub send-set_debug_mode :
      (b : Bool) (p : KafkaProducer) (m : KafkaMessage) (tr : Trace)
      → send env (set_debug_mode b p) m tr ≡ send env p m tr
  unfolding send set_debug_mode
  send-set_debug_mode b p m tr = refl

  -- The headers that a send hands over, and the calls up to there.
  abbrev pub prepared : KafkaProducer → KafkaMessage → Trace → List (Text × Text) × Trace
  prepared p m tr =
      let tr₁ = headers_create (fresh tr) ∷ tr in
      let t = env.gettimeofday tr₁ 0 in
      all_added env (fresh tr)
        (header_list (get_random_uuid env (env.gettimeofday tr₁ 1)) t m p.user_agent) ([], tr₁)

  pub send_parts :
      (p : KafkaProducer) (m : KafkaMessage) (tr : Trace)
      → milliseconds (env.gettimeofday (headers_create (fresh tr) ∷ tr) 0) < 2 ^ 63
      → let (hs, tr') = prepared p m tr in
        (¬ Fits5 m.version × (send env p m tr ≡ fault buffer_overflow))
        ⊎ (Fits5 m.version × (p.producer ≡ none) × (send env p m tr ≡ fault null_pointer))
        ⊎ (Fits5 m.version
            × (h : ℕ) × (p.producer ≡ some h)
            × (send env p m tr ≡ ok (produce_with env m p.topic (fresh tr) hs h tr')))
  unfolding send
  send_parts p m tr small =
      elim (create_kafka_header_lem env (fresh tr) m p.user_agent (headers_create (fresh tr) ∷ tr)
        small) [
          | inr (large, e) ↦ inl (large, rw e)
          | inl (fits, e) ↦ elim (Option-cases p.producer) [
            | inl missing ↦ inr (inl (fits, missing, rw (e, missing)))
            | inr (h, found) ↦ inr (inr (fits, h, found, rw (e, found)))
          ]
        ]

  -- One call of `produce` hands the arguments to the producer. Without an error that is the last
  -- call, and otherwise the headers are deleted after it.
  abbrev pub Hands : ℕ → Produced → Trace → Result (Bool × Trace) → Type 0
  Hands h r tr result =
      let e = env.produce tr r in
      ((is_no_error e ≡ true) × (result ≡ ok (true, produce h r e ∷ tr)))
      ⊎ ((is_no_error e ≡ false)
          × (result ≡ ok (false, delete_headers r.headers ∷ produce h r e ∷ tr)))

  pub produce_with-Hands :
      (p : KafkaProducer) (m : KafkaMessage) (object : ℕ) (hs : List (Text × Text)) (h : ℕ)
      (tr : Trace)
      → Hands h (handed p m object hs) tr (ok (produce_with env m p.topic object hs h tr))
  unfolding produce_with get_key get_contents
  produce_with-Hands p m object hs h tr =
      elim (Bool-cases (is_no_error (env.produce tr (handed p m object hs)))) [
        | inl sent ↦ inl (sent, rw sent refl)
        | inr failed ↦ inr (failed, rw failed refl)
      ]

  -- At a time whose milliseconds a `long long` holds: a message whose version is from -999 to 9999
  -- is handed to the producer in one call of `produce`, with the topic, its contents, its key and
  -- those of its six headers that the library has accepted; the answer is whether there was no
  -- error, and after an error the headers are deleted. Any other version overflows a buffer, and
  -- without a producer the null pointer is followed.
  pub send_lem :
      (p : KafkaProducer) (m : KafkaMessage) (tr : Trace)
      → milliseconds (env.gettimeofday (headers_create (fresh tr) ∷ tr) 0) < 2 ^ 63
      → let (hs, tr') = prepared p m tr in
        (¬ Fits5 m.version × (send env p m tr ≡ fault buffer_overflow))
        ⊎ (Fits5 m.version × (p.producer ≡ none) × (send env p m tr ≡ fault null_pointer))
        ⊎ (Fits5 m.version
            × (h : ℕ) × (p.producer ≡ some h)
            × Hands h (handed p m (fresh tr) hs) tr' (send env p m tr))
  send_lem p m tr small =
      let (hs, tr') = prepared p m tr in
      elim (send_parts p m tr small) [
        | inl large ↦ inl large
        | inr (inl missing) ↦ inr (inl missing)
        | inr (inr (fits, h, found, e)) ↦ inr (
            inr (
              fits,
              h,
              found,
              subst (Hands h (handed p m (fresh tr) hs) tr') (sym e)
                  (produce_with-Hands p m (fresh tr) hs h tr'),
            ))
      ]

  -- If the headers object and the producer exist: after the call of `produce` the headers object
  -- is gone, on success by the library and on failure by the client, with no call on an object
  -- that was gone and every other object as it was. The answer is whether there was no error.
  pub produce_with-headers :
      (m : KafkaMessage) (topic : Text) (object : ℕ) (hs : List (Text × Text)) (h : ℕ) (tr : Trace)
      → IsSafe tr
      → alive object tr ≡ true
      → alive h tr ≡ true
      → let (sent, tr') = produce_with env m topic object hs h tr in
        IsSafe tr'
        × (alive object tr' ≡ false)
        × (sent ≡ is_no_error (env.produce tr (produced m topic object hs)))
        × ((j : ℕ) → j ≢ object → alive j tr' ≡ alive j tr)
  unfolding produce_with alive needed
  produce_with-headers m topic object hs h tr safe live_object live =
      elim (Bool-cases (is_no_error (env.produce tr (produced m topic object hs)))) [
        | inl sent ↦ ground arith
        | inr failed ↦ ground arith
      ]
