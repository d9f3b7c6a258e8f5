-- ===== src/Producer/Session/Objects.antt =====
-- An open session keeps its objects.
use kafka_client.Base.{
  ℕ, zero, suc, ◌≡◌, refl, sym, ◌∙◌, ap, inl, inr, Bool, true, false, Bool-cases, Option, none,
  some, List, ◌∷◌, ltb, ◌^◌, ◌<◌,
}
use mathlib.Core.Path.{subst}
use kafka_client.Base.Int.{ℤ}
use kafka_client.Kafka.{
  Env, Trace, fresh, ok, ok-injective, alive, created, destroyed, headers_create, needed,
}
use kafka_client.Ownership.{alive-neutral, Holds-neutral, Live}
use kafka_client.Ownership.Frame.{SameObjects}
use kafka_client.KafkaMessage.{KafkaMessage}
use kafka_client.Producer.State.{KafkaProducer, set_topic, set_debug_mode, EventPoll}
use kafka_client.Producer.Send.{send}
use kafka_client.Producer.Clock.{milliseconds}
use kafka_client.Producer.Send.Frame.{send-SameObjects}
use kafka_client.Producer.Lifecycle.{drain, poll_once, poll_event}
use kafka_client.Producer.Lifecycle.Owned.{Owns, poll_event-Owns}
use kafka_client.Producer.Session.{
  Posted, Session, opened, accepted, rejected, polled, named, debugged, background,
}

-- What an open session leaves as it was.
pub record Kept (p₀ : KafkaProducer) (tr₀ : Trace) (p : KafkaProducer) (tr : Trace) : Type 0 where
  pub owns : Owns p tr
  pub same : SameObjects tr₀ tr
  pub producer : p.producer ≡ p₀.producer
  pub configuration : p.global_conf ≡ p₀.global_conf
  pub event_poll : p.event_poll ≡ p₀.event_poll
  pub thread : p.polling_thread_id ≡ p₀.polling_thread_id

module _ (env : Env) where
  poll_once-SameObjects :
      (o : Option ℕ) (time_out : ℤ) (tr : Trace) → SameObjects tr (poll_once env o time_out tr).1
  unfolding created destroyed
  poll_once-SameObjects none time_out tr h = refl
  poll_once-SameObjects (some o) time_out tr h = alive-neutral _ h tr refl refl

  poll_event-SameObjects :
      (time_out : ℤ) (p : KafkaProducer) (tr : Trace)
      → SameObjects tr (poll_event env time_out p tr).1
  unfolding poll_event
  poll_event-SameObjects time_out p tr = poll_once-SameObjects p.producer time_out tr

  pub drain-SameObjects :
      (fuel : ℕ) (o : Option ℕ) (tr tr' : Trace) → drain env fuel o tr ≡ ok tr' → SameObjects tr tr'
  unfolding drain created destroyed
  drain-SameObjects fuel none tr tr' e h = ap (alive h) (sym (ok-injective e))
  drain-SameObjects zero (some o) tr tr' e h = absurd (cc)
  drain-SameObjects (suc fuel) (some o) tr tr' e h = elim (Bool-cases (ltb 0 (env.outq_len tr))) [
    | inl busy ↦
        drain-SameObjects fuel (some o) _ tr' (rw busy at e) h
        ∙ alive-neutral _ h _ refl refl
        ∙ alive-neutral _ h tr refl refl
    | inr idle ↦ ap (alive h) (sym (ok-injective (rw idle at e))) ∙ alive-neutral _ h tr refl refl
  ]

  sent-Kept :
      {p₀ : KafkaProducer} {tr₀ : Trace} (p : KafkaProducer) (m : KafkaMessage) (b : Bool)
      (tr tr' : Trace)
      → milliseconds (env.gettimeofday (headers_create (fresh tr) ∷ tr) 0) < 2 ^ 63
      → send env p m tr ≡ ok (b, tr')
      → Kept p₀ tr₀ p tr
      → Kept p₀ tr₀ p tr'
  sent-Kept p m b tr tr' clock e k =
      let (same, owns) = send-SameObjects env p m b tr tr' clock k.owns e in
      record {
        owns = owns;
        same = λ h. same h ∙ k.same h;
        producer = k.producer;
        configuration = k.configuration;
        event_poll = k.event_poll;
        thread = k.thread;
      }

  pub Session-Kept :
      {p₀ : KafkaProducer} {tr₀ : Trace} {l : List Posted} {p : KafkaProducer} {tr : Trace}
      → Owns p₀ tr₀
      → p₀.event_poll.producer ≡ p₀.producer
      → Session env p₀ tr₀ l p tr
      → Kept p₀ tr₀ p tr
  unfolding set_topic set_debug_mode created destroyed needed
  Session-Kept owns same_producer opened = record {
    owns = owns;
    same = λ h. refl;
    producer = refl;
    configuration = refl;
    event_poll = refl;
    thread = refl;
  }
  Session-Kept owns same_producer (accepted {p = p} {tr = tr} m tr' clock e s) =
      sent-Kept p m true tr tr' clock e (Session-Kept owns same_producer s)
  Session-Kept owns same_producer (rejected {p = p} {tr = tr} m tr' clock e s) =
      sent-Kept p m false tr tr' clock e (Session-Kept owns same_producer s)
  Session-Kept {p₀} owns same_producer (background {p = p} {tr = tr} h runs found s) =
      let k = Session-Kept owns same_producer s in
      let points : p.producer ≡ some h =
        k.producer
        ∙ sym same_producer
        ∙ ap (λ (e : EventPoll). e.producer) (sym k.event_poll)
        ∙ found in
      record {
        owns =
            Holds-neutral _ tr refl refl (subst (λ x. Live x tr) points k.owns.live_o, tt) k.owns;
        same = λ j. alive-neutral _ j tr refl refl ∙ k.same j;
        producer = k.producer;
        configuration = k.configuration;
        event_poll = k.event_poll;
        thread = k.thread;
      }
  Session-Kept owns same_producer (polled {p = p} {tr = tr} time_out s) =
      let k = Session-Kept owns same_producer s in
      record {
        owns = poll_event-Owns env time_out p tr k.owns;
        same = λ h. poll_event-SameObjects time_out p tr h ∙ k.same h;
        producer = k.producer;
        configuration = k.configuration;
        event_poll = k.event_poll;
        thread = k.thread;
      }
  Session-Kept owns same_producer (named t s) =
      let k = Session-Kept owns same_producer s in
      record {
        owns = k.owns;
        same = k.same;
        producer = k.producer;
        configuration = k.configuration;
        event_poll = k.event_poll;
        thread = k.thread;
      }
  Session-Kept owns same_producer (debugged b s) =
      let k = Session-Kept owns same_producer s in
      record {
        owns = k.owns;
        same = k.same;
        producer = k.producer;
        configuration = k.configuration;
        event_poll = k.event_poll;
        thread = k.thread;
      }
