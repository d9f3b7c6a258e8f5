-- ===== src/Producer/Send/Frame.antt =====
-- Sending leaves exactly the objects that there were.
use kafka_client.Base.{
  ℕ, ◌^◌, ◌<◌, ◌≡◌, refl, ◌∙◌, ap, sym, inl, inr, Bool, false, Option, List, [], ◌∷◌, arith, ◌==◌,
  if◌then◌else◌,
}
use kafka_client.Base.Text.{Text}
use kafka_client.Kafka.{
  fault-ok, Env, Trace, fresh, headers_create, ok, created, destroyed, alive, ok-injective,
}
use kafka_client.Ownership.{Holds, alive-neutral}
use kafka_client.Ownership.Frame.{SameObjects, fresh-dead, alive-new}
use kafka_client.KafkaMessage.{KafkaMessage}
use kafka_client.Producer.State.{KafkaProducer}
use kafka_client.Producer.Uuid.{get_random_uuid}
use kafka_client.Producer.Clock.{milliseconds}
use kafka_client.Producer.Headers.{add}
use kafka_client.Producer.Headers.Written.{all_added, header_list}
use kafka_client.Producer.Send.{produce_with, send}
use kafka_client.Producer.Send.Outcome.{prepared, send_parts}
use kafka_client.Producer.Send.Owned.{send-Holds}

module _ (env : Env) where
  all_added-SameObjects :
      (object : ℕ) (l : List (Text × Text)) (s : List (Text × Text) × Trace)
      → SameObjects s.1 (all_added env object l s).1
  unfolding add created destroyed
  all_added-SameObjects object [] s h = refl
  all_added-SameObjects object ((k, v) ∷ l) s h =
      all_added-SameObjects object l (add env object k v s) h ∙ alive-neutral _ h s.1 refl refl

  produce_with-objects :
      (m : KafkaMessage) (topic : Text) (object : ℕ) (hs : List (Text × Text)) (p h : ℕ)
      (tr : Trace)
      → alive h (produce_with env m topic object hs p tr).1
        ≡ (if object == h then false else alive h tr)
  unfolding produce_with alive
  produce_with-objects m topic object hs p h tr = ground arith

  pub sent-SameObjects :
      (m : KafkaMessage) (p : KafkaProducer) (j : ℕ) (tr : Trace)
      → alive (fresh tr) tr ≡ false
      → SameObjects tr
          (produce_with env m p.topic
            (fresh tr)
            (prepared env p m tr).0
            j
            (prepared env p m tr).1).1
  unfolding created destroyed
  sent-SameObjects m p j tr dead h =
      let prepared_same : alive h (prepared env p m tr).1
          ≡ alive h (headers_create (fresh tr) ∷ tr) =
        all_added-SameObjects (fresh tr)
          (header_list (get_random_uuid env (env.gettimeofday (headers_create (fresh tr) ∷ tr) 1))
            (env.gettimeofday (headers_create (fresh tr) ∷ tr) 0) m p.user_agent)
          ([], headers_create (fresh tr) ∷ tr) h in
      ground (
        arith,
        produce_with-objects m p.topic (fresh tr) (prepared env p m tr).0 j h
            (prepared env p m tr).1,
        alive-new (headers_create (fresh tr)) (fresh tr) h tr refl refl,
      )

  -- Whenever `send` of a producer that owns what it points to returns, at a time whose milliseconds a
  -- `long long` holds, exactly the objects exist that existed before, on success and on failure: its
  -- headers object is gone, and no other. No call has used an object that was gone.
  pub send-SameObjects :
      {c s : Option ℕ} (p : KafkaProducer) (m : KafkaMessage) (b : Bool) (tr tr' : Trace)
      → milliseconds (env.gettimeofday (headers_create (fresh tr) ∷ tr) 0) < 2 ^ 63
      → Holds p.producer c s tr
      → send env p m tr ≡ ok (b, tr')
      → SameObjects tr tr' × Holds p.producer c s tr'
  send-SameObjects {c} {s} p m b tr tr' clock held e = (
    λ h. elim (send_parts env p m tr clock) [
      | inl (large, f) ↦ absurd (fault-ok (sym f ∙ e))
      | inr (inl (fits, missing, f)) ↦ absurd (fault-ok (sym f ∙ e))
      | inr (inr (fits, j, found, f)) ↦
          ap (λ (r : Bool × Trace). alive h r.1) (ok-injective (sym e ∙ f))
          ∙ sent-SameObjects m p j tr (fresh-dead tr held) h
    ],
    send-Holds env p m b tr tr' held e,
  )
