-- ===== src/Application/Interleaved.antt =====
-- An application with a producer and a consumer, whose operations come in any order.
use kafka_client.Producer.Threads.Alone.{alone-Holds}
use kafka_client.Producer.Threads.Running.{
  Running, Running-members, init_kafka-Running, thread_next-Running, thread_next-Holds,
  thread_next_defined, exited_defined, closing-Holds, closing-callback, closing-exited,
}
use kafka_client.Producer.Threads.Steps.{exited_waits}
use kafka_client.Producer.Threads.Schedule.{at}
use kafka_client.Producer.Threads.{
  Place, exited, testing, Threads, Reach, entered, returned, next, faults, thread_next,
}
use mathlib.Core.Path.{subst}
use kafka_client.Base.{ℕ, ◌≡◌, refl, Bool, none, List, [], inl, inr, true, ◌≢◌, ◌∷◌, ◌⊎◌}
use kafka_client.Base.Int.{ℤ, pos}
use kafka_client.Base.Text.{Text}
use kafka_client.Base.Map.{Map}
use kafka_client.Kafka.{Env, Trace, ok, thread_create}
use kafka_client.Ownership.{Holds}
use kafka_client.KafkaMessage.{KafkaMessage}
use kafka_client.ReceivedMessage.{ReceivedMessage}
use kafka_client.Producer.State as Producer
use kafka_client.Producer.State.{KafkaProducer, set_topic}
use kafka_client.Producer.Send.{send}
use kafka_client.Producer.Send.Owned.{send-Holds}
use kafka_client.Producer.Lifecycle as ProducerLifecycle
use kafka_client.Producer.Lifecycle.{poll_event}
use kafka_client.Producer.Lifecycle.Reachable as Reachable
use kafka_client.Producer.Lifecycle.Beside as ProducerBeside
use kafka_client.Consumer.State as Consumer
use kafka_client.Consumer.State.{KafkaConsumer, set_poll_period}
use kafka_client.Consumer.Receive.{consume_message}
use kafka_client.Consumer.Receive.Owned.{consume_message-Holds}
use kafka_client.Consumer.Lifecycle as ConsumerLifecycle
use kafka_client.Consumer.Lifecycle.Outcome as ConsumerOutcome
use kafka_client.Application.Both.{Both, Both-consumer, Both-producer}

-- A producer, a consumer and the polling thread after some calls of the operations, each of which has
-- returned, with whatever answer, and some steps of the thread. `initKafka` of the producer is called
-- only while no thread runs. `closeKafka` of the producer is taken in steps, and those of the thread,
-- if one runs, come between them.
pub data Runs (env : Env) : KafkaProducer → KafkaConsumer → Trace → Place → Type 0 where
  constructed :
      (junk : ℕ) (junk' : ℤ)
      → Runs env
          (Producer.construct junk []).0
          (Consumer.construct junk')
          (Producer.construct junk []).1
          exited
  started :
      {p : KafkaProducer} {c : KafkaConsumer} {tr : Trace} (custom : Map) (brokers agent : Text)
      (time_out : ℤ) (p' : KafkaProducer) (id : ℕ) (tr' : Trace)
      → ProducerLifecycle.init_kafka env custom brokers agent none time_out p tr
        ≡ (true, p', thread_create (pos 0) id ∷ tr')
      → Runs env p c tr exited
      → Runs env p' c (thread_create (pos 0) id ∷ tr') testing
  not_started :
      {p : KafkaProducer} {c : KafkaConsumer} {tr : Trace} (custom : Map) (brokers agent : Text)
      (time_out : ℤ) (b : Bool) (p' : KafkaProducer) (tr' : Trace)
      → ProducerLifecycle.init_kafka env custom brokers agent none time_out p tr ≡ (b, p', tr')
      → ((id : ℕ) (tr'' : Trace) → tr' ≢ thread_create (pos 0) id ∷ tr'')
      → Runs env p c tr exited
      → Runs env p' c tr' exited
  thread_stepped :
      {p : KafkaProducer} {c : KafkaConsumer} {tr : Trace} {o : Place} (q : Place) (tr' : Trace)
      → thread_next env o p true tr ≡ next (q, tr')
      → Runs env p c tr o
      → Runs env p c tr' q
  polled :
      {p : KafkaProducer} {c : KafkaConsumer} {tr : Trace} {o : Place} (time_out : ℤ)
      → Runs env p c tr o
      → Runs env p c (poll_event env time_out p tr).1 o
  sent :
      {p : KafkaProducer} {c : KafkaConsumer} {tr : Trace} {o : Place} (m : KafkaMessage) (b : Bool)
      (tr' : Trace)
      → send env p m tr ≡ ok (b, tr')
      → Runs env p c tr o
      → Runs env p c tr' o
  named :
      {p : KafkaProducer} {c : KafkaConsumer} {tr : Trace} {o : Place} (t : Text)
      → Runs env p c tr o
      → Runs env (set_topic t p) c tr o
  producer_debugged :
      {p : KafkaProducer} {c : KafkaConsumer} {tr : Trace} {o : Place} (b : Bool)
      → Runs env p c tr o
      → Runs env (Producer.set_debug_mode b p) c tr o
  producer_closed :
      {p : KafkaProducer} {c : KafkaConsumer} {tr : Trace} {o : Place} (s : Threads)
      → Reach env (at env [] entered p tr o) s
      → s.point ≡ returned
      → Runs env p c tr o
      → Runs env s.client c s.trace s.poller
  consumer_initialised :
      {p : KafkaProducer} {c : KafkaConsumer} {tr : Trace} {o : Place} (custom : Map)
      (brokers : Text) (topics : List Text) (id : Text) (period : ℤ)
      → Runs env p c tr o
      → Runs env p
          (ConsumerLifecycle.init_kafka env custom brokers topics id period c tr).1
          (ConsumerLifecycle.init_kafka env custom brokers topics id period c tr).2
          o
  consumed :
      {p : KafkaProducer} {c : KafkaConsumer} {tr : Trace} {o : Place} (r r' : ReceivedMessage)
      (b : Bool) (tr' : Trace)
      → consume_message env c r tr ≡ ok (b, r', tr')
      → Runs env p c tr o
      → Runs env p c tr' o
  timed :
      {p : KafkaProducer} {c : KafkaConsumer} {tr : Trace} {o : Place} (t : ℤ)
      → Runs env p c tr o
      → Runs env p (set_poll_period t c) tr o
  consumer_debugged :
      {p : KafkaProducer} {c : KafkaConsumer} {tr : Trace} {o : Place} (b : Bool)
      → Runs env p c tr o
      → Runs env p (Consumer.set_debug_mode b c) tr o
  consumer_closed :
      {p : KafkaProducer} {c : KafkaConsumer} {tr : Trace} {o : Place} (c' : KafkaConsumer)
      (tr' : Trace)
      → ConsumerLifecycle.close_kafka c tr ≡ ok (c', tr')
      → Runs env p c tr o
      → Runs env p c' tr' o

constructed-Both :
    (env : Env) (junk : ℕ) (junk' : ℤ)
    → Both (Producer.construct junk []).0 (Consumer.construct junk') (Producer.construct junk []).1
unfolding Producer.construct Consumer.construct
constructed-Both env junk junk' =
    let owns = Reachable.Reach-Owns {env = env} (Reachable.constructed junk) in
    let alone : Holds none none none (Producer.construct junk []).1 = record {
      safe = owns.safe;
      numbered = owns.numbered;
      live_o = tt;
      live_c = tt;
      live_s = tt;
      apart_oc = tt;
      apart_os = tt;
      apart_cs = tt;
    } in
    record {
      owns = owns;
      object = alone;
      configuration = alone;
      callback = record {
        safe = owns.safe;
        numbered = owns.numbered;
        live_o = tt;
        live_c = tt;
        live_s = owns.live_s;
        apart_oc = tt;
        apart_os = tt;
        apart_cs = tt;
      };
    }

-- What holds after every step: the thread has ended, or runs for what the producer points to.
abbrev Kept : KafkaProducer → KafkaConsumer → Trace → Place → Type 0
Kept p c tr o = Both p c tr × ((o ≡ exited) ⊎ Running p o)

-- Neither of the two setters touches the members that the thread depends on.
kept_thread :
    {p p' : KafkaProducer} {o : Place}
    → p'.producer ≡ p.producer
    → p'.global_conf ≡ p.global_conf
    → p'.event_poll ≡ p.event_poll
    → p'.polling_thread_id ≡ p.polling_thread_id
    → (o ≡ exited) ⊎ Running p o
    → (o ≡ exited) ⊎ Running p' o
kept_thread e f g i (inl out) = inl out
kept_thread e f g i (inr running) = inr (Running-members e f g i running)

Runs-Kept :
    {env : Env} {p : KafkaProducer} {c : KafkaConsumer} {tr : Trace} {o : Place}
    → Runs env p c tr o
    → Kept p c tr o
unfolding set_topic Producer.set_debug_mode set_poll_period Consumer.set_debug_mode
Runs-Kept {env} (constructed junk junk') = (constructed-Both env junk junk', inl refl)
Runs-Kept {env} (started {p} {c} {tr} custom brokers agent time_out p' id tr' e r) =
    let (both, thread) = Runs-Kept r in
    let init_kafka : Bool × KafkaProducer × Trace =
      ProducerLifecycle.init_kafka env custom brokers agent none time_out p tr in
    (
      subst (λ (r : Bool × KafkaProducer × Trace). Both r.1 c r.2) e
          (Both-producer p init_kafka.1 c tr _
            (λ s. ProducerBeside.init_kafka-Holds env {s = s} custom brokers agent time_out p tr)
            (ProducerBeside.init_kafka-callback env custom brokers agent time_out p tr) both),
      inr (init_kafka-Running env custom brokers agent time_out p p' id tr tr' both.owns e),
    )
Runs-Kept {env} (not_started {p} {c} {tr} custom brokers agent time_out b p' tr' e none_started r) =
    let (both, thread) = Runs-Kept r in
    let init_kafka : Bool × KafkaProducer × Trace =
      ProducerLifecycle.init_kafka env custom brokers agent none time_out p tr in
    (
      subst (λ (r : Bool × KafkaProducer × Trace). Both r.1 c r.2) e
          (Both-producer p init_kafka.1 c tr _
            (λ s. ProducerBeside.init_kafka-Holds env {s = s} custom brokers agent time_out p tr)
            (ProducerBeside.init_kafka-callback env custom brokers agent time_out p tr) both),
      inl refl,
    )
Runs-Kept {env} (thread_stepped {p} {c} {tr} {o} q tr' e r) =
    let (both, thread) = Runs-Kept r in
    elim thread [
      | inl out ↦ absurd (exited_waits env o p true tr (q, tr') out e)
      | inr running ↦ (
        Both-producer p p c tr tr' (λ s. thread_next-Holds env {s = s} p o q tr tr' running e) refl
            both,
        inr (thread_next-Running env p o q tr tr' running e),
      )
    ]
Runs-Kept {env} (polled {p} {c} {tr} time_out r) =
    let (both, thread) = Runs-Kept r in
    (
      Both-producer p p c tr _ (λ s. ProducerBeside.poll_event-Holds env {s = s} time_out p tr) refl
          both,
      thread,
    )
Runs-Kept {env} (sent {p} {c} {tr} m b tr' e r) =
    let (both, thread) = Runs-Kept r in
    (
      Both-producer p p c tr tr' (λ s held. send-Holds {s = s} env p m b tr tr' held e) refl both,
      thread,
    )
Runs-Kept (named t r) =
    let (both, thread) = Runs-Kept r in (both, kept_thread refl refl refl refl thread)
Runs-Kept (producer_debugged b r) =
    let (both, thread) = Runs-Kept r in (both, kept_thread refl refl refl refl thread)
Runs-Kept {env} (producer_closed {p} {c} {tr} {o} s steps back r) =
    let (both, thread) = Runs-Kept r in
    elim thread [
      | inl out ↦
          let steps' : Reach env (at env [] entered p tr exited) s =
            subst (λ o. Reach env (at env [] entered p tr o) s) out steps in
          let (_, callback, exits) = alone-Holds env p tr s steps' back both.owns in
          (
            Both-producer p s.client c tr s.trace
                (λ h held. (alone-Holds env {s = h} p tr s steps' back held).0) callback both,
            inl exits,
          )
      | inr running ↦ (
        Both-producer p s.client c tr s.trace
            (λ h. closing-Holds env p o tr running both.owns s steps back {s = h})
            (closing-callback env p o tr running both.owns s steps back) both,
        inl (closing-exited env p o tr running both.owns s steps back),
      )
    ]
Runs-Kept {env} (consumer_initialised {p} {c} {tr} custom brokers topics id period r) =
    let (both, thread) = Runs-Kept r in
    (
      Both-consumer p c (ConsumerLifecycle.init_kafka env custom brokers topics id period c tr).1 tr
          _ (λ s. ConsumerOutcome.init_kafka-Holds env {s = s} custom brokers topics id period c tr)
          both,
      thread,
    )
Runs-Kept {env} (consumed {p} {c} {tr} m m' b tr' e r) =
    let (both, thread) = Runs-Kept r in
    (
      Both-consumer p c c tr tr'
          (λ s held. consume_message-Holds env {s = s} c m m' b tr tr' held e) both,
      thread,
    )
Runs-Kept (timed t r) = Runs-Kept r
Runs-Kept (consumer_debugged b r) = Runs-Kept r
Runs-Kept {env} (consumer_closed {p} {c} {tr} c' tr' e r) =
    let (both, thread) = Runs-Kept r in
    (
      Both-consumer p c c' tr tr'
          (λ s held. ConsumerOutcome.close_kafka_returns-Holds {s = s} c c' tr tr' held e) both,
      thread,
    )

-- An application that has a producer and a consumer calls their operations in any order, with no
-- callback of its own, each of them has returned, with whatever answer, and it calls `initKafka` of
-- the producer only while no thread runs; the polling thread takes its steps between those calls and
-- between the steps of `closeKafka`. The producer, the configurations, the consumer and the callback
-- that the two objects point to exist and are different; no call, of the thread or the application,
-- has used or deleted an object that was gone; and the next step of the thread follows no null
-- pointer.
pub Runs-Both :
    {env : Env} {p : KafkaProducer} {c : KafkaConsumer} {tr : Trace} {o : Place}
    → Runs env p c tr o
    → Both p c tr × (thread_next env o p true tr ≢ faults)
Runs-Both {env} {p} {tr} {o} r =
    let (both, thread) = Runs-Kept r in
    (
      both,
      elim thread [
        | inl out ↦ exited_defined env o p tr out
        | inr running ↦ thread_next_defined env p o tr running
      ],
    )
