-- ===== src/Producer/Lifecycle/Reachable.antt =====
-- Everything that an application can do with a producer, one call after the other, each taken as one
-- step and without those of a polling thread.
use kafka_client.Base.{ℕ, ◌≡◌, refl, ◌∙◌, Bool, Option, none, [], ◌∷◌, arith, sym}
use kafka_client.Base.Int.{ℤ}
use kafka_client.Base.Text.{Text}
use kafka_client.Base.Map.{Map}
use kafka_client.Kafka.{
  Env, Trace, fresh, new_send_callback, ok, created, destroyed, needed, alive, alive-cons,
}
use kafka_client.Ownership.Created.{Holds-new_other}
use kafka_client.KafkaMessage.{KafkaMessage}
use kafka_client.Callback.Delivery.Owned.{Registrable}
use kafka_client.Producer.State.{KafkaProducer, construct, set_debug_mode, set_topic}
use kafka_client.Producer.Send.{send}
use kafka_client.Producer.Send.Owned.{send-Holds}
use kafka_client.Producer.Lifecycle.{init_kafka, poll_event, close_kafka}
use kafka_client.Producer.Lifecycle.Owned.{Owns, init_kafka-Owns, poll_event-Owns}
use kafka_client.Producer.Lifecycle.Closing.{close_kafka_returns-Owns}

-- A producer after some calls of its operations, each of which has returned; between them the
-- application may create callback objects, and it registers one only if it is new to the producer.
pub data Reach (env : Env) : KafkaProducer → Trace → Type 0 where
  constructed : (junk : ℕ) → Reach env (construct junk []).0 (construct junk []).1
  application :
      {p : KafkaProducer} {tr : Trace}
      → Reach env p tr
      → Reach env p (new_send_callback (fresh tr) ∷ tr)
  initialised :
      {p : KafkaProducer} {tr : Trace} (custom : Map) (brokers agent : Text) (callback : Option ℕ)
      (time_out : ℤ)
      → Registrable callback p.producer none p.producer_callback.send_callback tr
      → Reach env p tr
      → Reach env
          (init_kafka env custom brokers agent callback time_out p tr).1
          (init_kafka env custom brokers agent callback time_out p tr).2
  polled :
      {p : KafkaProducer} {tr : Trace} (time_out : ℤ)
      → Reach env p tr
      → Reach env p (poll_event env time_out p tr).1
  named :
      {p : KafkaProducer} {tr : Trace} (t : Text) → Reach env p tr → Reach env (set_topic t p) tr
  debugged :
      {p : KafkaProducer} {tr : Trace} (b : Bool)
      → Reach env p tr
      → Reach env (set_debug_mode b p) tr
  sent :
      {p : KafkaProducer} {tr : Trace} (m : KafkaMessage) (b : Bool) (tr' : Trace)
      → send env p m tr ≡ ok (b, tr')
      → Reach env p tr
      → Reach env p tr'
  closed :
      {p : KafkaProducer} {tr : Trace} (fuel : ℕ) (p' : KafkaProducer) (tr' : Trace)
      → close_kafka env fuel p tr ≡ ok (p', tr')
      → Reach env p tr
      → Reach env p' tr'

-- What the object points to exists, as far as the calls of this one thread go; Application/Interleaved
-- has the polling thread beside it.
pub Reach-Owns : {env : Env} {p : KafkaProducer} {tr : Trace} → Reach env p tr → Owns p tr
unfolding construct set_topic set_debug_mode alive created destroyed needed
Reach-Owns (constructed junk) = record {
  safe = (tt, tt);
  numbered = λ h l. ground (arith, sym (alive-cons h (new_send_callback 1) []) ∙ l);
  live_o = tt;
  live_c = tt;
  live_s = refl;
  apart_oc = tt;
  apart_os = tt;
  apart_cs = tt;
}
Reach-Owns (application {tr = tr} r) = (Holds-new_other _ tr refl refl tt (Reach-Owns r)).0
Reach-Owns {env} (initialised {p = p} {tr = tr} custom brokers agent callback time_out new r) =
    init_kafka-Owns env custom brokers agent callback time_out p tr new (Reach-Owns r)
Reach-Owns {env} (polled {p = p} {tr = tr} time_out r) =
    poll_event-Owns env time_out p tr (Reach-Owns r)
Reach-Owns (named t r) = Reach-Owns r
Reach-Owns (debugged b r) = Reach-Owns r
Reach-Owns {env} (sent {p = p} {tr = tr} m b tr' e r) = send-Holds env p m b tr tr' (Reach-Owns r) e
Reach-Owns {env} (closed {p = p} {tr = tr} fuel p' tr' e r) =
    close_kafka_returns-Owns env fuel p tr p' tr' (Reach-Owns r) e
