-- ===== src/Producer/Session/Outbox.antt =====
-- What the library has taken over after each operation of a producer.
use kafka_client.Base.{
  ℕ, zero, suc, ◌^◌, ◌<◌, ◌≡◌, refl, sym, ◌∙◌, ap, inl, inr, Bool, true, false, Bool-cases, Option,
  none, some, List, [], ◌∷◌, ◌++◌, if◌then◌else◌, if-elim, ltb, ◌==◌,
}
use mathlib.Core.Path.{subst}
use kafka_client.Base.Int.{ℤ}
use kafka_client.Base.Text.{Text}
use kafka_client.Base.Map.{Map}
use kafka_client.Kafka.{fault-ok, Env, Trace, fresh, headers_create, ok, ok-injective, is_no_error}
use kafka_client.Config.Order.{all_set}
use kafka_client.KafkaMessage.{KafkaMessage}
use kafka_client.Producer.State.{KafkaProducer}
use kafka_client.Producer.Clock.{milliseconds}
use kafka_client.Producer.Uuid.{get_random_uuid}
use kafka_client.Producer.Headers.{add}
use kafka_client.Producer.Headers.Written.{all_added, header_list}
use kafka_client.Producer.Send.{produce_with, send, produced}
use kafka_client.Producer.Send.Outcome.{prepared, send_parts}
use kafka_client.Producer.Lifecycle.{drain, stop_polling, delete_objects, poll_event, poll_once}
use kafka_client.Producer.Session.{
  Posted, outbox, posted, Session, opened, accepted, rejected, polled, named, debugged, background,
}

pub all_set-outbox :
    (env : Env) (conf : ℕ) (m : Map) (tr : Trace) → outbox (all_set env conf m tr) ≡ outbox tr
all_set-outbox env conf [] tr = refl
all_set-outbox env conf ((k, v) ∷ m) tr = all_set-outbox env conf m _

module _ (env : Env) where
  all_added-outbox :
      (object : ℕ) (l : List (Text × Text)) (s : List (Text × Text) × Trace)
      → outbox (all_added env object l s).1 ≡ outbox s.1
  unfolding add
  all_added-outbox object [] s = refl
  all_added-outbox object ((k, v) ∷ l) s = all_added-outbox object l (add env object k v s)

  produce_with-outbox :
      (p : KafkaProducer) (m : KafkaMessage) (object : ℕ) (hs : List (Text × Text)) (h : ℕ)
      (tr : Trace)
      → let (b, tr') = produce_with env m p.topic object hs h tr in
        outbox tr' ≡ (if b then posted p m hs ∷ outbox tr else outbox tr)
  unfolding produce_with kafka_client.KafkaMessage.get_key kafka_client.KafkaMessage.get_contents
  produce_with-outbox p m object hs h tr =
      elim (Bool-cases (is_no_error (env.produce tr (produced m p.topic object hs)))) [
        | inl good ↦ rw (good, good) refl
        | inr bad ↦ rw (bad, bad) refl
      ]

  pub send-outbox :
      (p : KafkaProducer) (m : KafkaMessage) (b : Bool) (tr tr' : Trace)
      → milliseconds (env.gettimeofday (headers_create (fresh tr) ∷ tr) 0) < 2 ^ 63
      → send env p m tr ≡ ok (b, tr')
      → outbox tr' ≡ (if b then posted p m (prepared env p m tr).0 ∷ outbox tr else outbox tr)
  send-outbox p m b tr tr' clock e = elim (send_parts env p m tr clock) [
    | inl (large, f) ↦ absurd (fault-ok (sym f ∙ e))
    | inr (inl (fits, missing, f)) ↦ absurd (fault-ok (sym f ∙ e))
    | inr (inr (fits, j, found, f)) ↦
        subst
          (λ (r : Bool × Trace).
            outbox r.1
            ≡ (if r.0 then posted p m (prepared env p m tr).0 ∷ outbox tr else outbox tr))
          (ok-injective (sym f ∙ e))
          (produce_with-outbox p m (fresh tr) (prepared env p m tr).0 j (prepared env p m tr).1
            ∙ ap
                (λ l.
                  if (produce_with env m p.topic (fresh tr) (prepared env p m tr).0 j
                    (prepared env p m tr).1).0
                  then posted p m (prepared env p m tr).0 ∷ l
                  else l)
                (all_added-outbox (fresh tr)
                  (header_list
                    (get_random_uuid env (env.gettimeofday (headers_create (fresh tr) ∷ tr) 1))
                    (env.gettimeofday (headers_create (fresh tr) ∷ tr) 0) m p.user_agent)
                  ([], headers_create (fresh tr) ∷ tr)))
  ]

  pub drain-outbox :
      (fuel : ℕ) (o : Option ℕ) (tr tr' : Trace)
      → drain env fuel o tr ≡ ok tr'
      → outbox tr' ≡ outbox tr
  unfolding drain
  drain-outbox fuel none tr tr' e = ap outbox (sym (ok-injective e))
  drain-outbox zero (some h) tr tr' e = absurd (cc)
  drain-outbox (suc fuel) (some h) tr tr' e = elim (Bool-cases (ltb 0 (env.outq_len tr))) [
    | inl busy ↦ drain-outbox fuel (some h) _ tr' (rw busy at e)
    | inr idle ↦ ap outbox (sym (ok-injective (rw idle at e)))
  ]

  pub stop_polling-outbox :
      (p : KafkaProducer) (tr : Trace) → outbox (stop_polling env p tr).1 ≡ outbox tr
  unfolding stop_polling
  stop_polling-outbox p tr =
      if-elim {A = KafkaProducer × Trace} (λ r. outbox r.1 ≡ outbox tr) p.event_poll.run
        (if-elim (λ (t : Trace). outbox t ≡ outbox tr) (p.polling_thread_id == 0) refl refl) refl

  pub delete_objects-outbox :
      (o g : Option ℕ) (tr : Trace) → outbox (delete_objects env o g tr) ≡ outbox tr
  delete_objects-outbox none none tr = refl
  delete_objects-outbox none (some g) tr = refl
  delete_objects-outbox (some o) none tr = refl
  delete_objects-outbox (some o) (some g) tr = refl

  poll_once-outbox :
      (o : Option ℕ) (time_out : ℤ) (tr : Trace)
      → outbox (poll_once env o time_out tr).1 ≡ outbox tr
  poll_once-outbox none time_out tr = refl
  poll_once-outbox (some h) time_out tr = refl

  poll_event-outbox :
      (time_out : ℤ) (p : KafkaProducer) (tr : Trace)
      → outbox (poll_event env time_out p tr).1 ≡ outbox tr
  unfolding poll_event
  poll_event-outbox time_out p tr = poll_once-outbox p.producer time_out tr

-- In a session of operations that have returned, in which every `send` is at a time whose
-- milliseconds a `long long` holds: the library has taken over, since the session was opened,
-- exactly the messages whose `send` answered `true`, each once, with the topic set then and the
-- headers that the library has accepted, and in their order.
pub Session-outbox :
    {env : Env} {p₀ : KafkaProducer} {tr₀ : Trace} {l : List Posted} {p : KafkaProducer}
    {tr : Trace}
    → Session env p₀ tr₀ l p tr
    → outbox tr ≡ l ++ outbox tr₀
Session-outbox opened = refl
Session-outbox {env} (accepted {p = p} {tr = tr} m tr' clock e s) =
    send-outbox env p m true tr tr' clock e
    ∙ ap (λ l. posted p m (prepared env p m tr).0 ∷ l) (Session-outbox s)
Session-outbox {env} (rejected {p = p} {tr = tr} m tr' clock e s) =
    send-outbox env p m false tr tr' clock e ∙ Session-outbox s
Session-outbox {env} (polled {p = p} {tr = tr} time_out s) =
    poll_event-outbox env time_out p tr ∙ Session-outbox s
Session-outbox (background h runs found s) = Session-outbox s
Session-outbox (named t s) = Session-outbox s
Session-outbox (debugged b s) = Session-outbox s
