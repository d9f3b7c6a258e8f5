-- ===== src/Producer/Threads/Running.antt =====
-- A producer whose polling thread runs, from `initKafka` on: its operations, the steps of the
-- thread, and `closeKafka` in steps (KafkaProducer.cpp).
use kafka_client.Base.{
  ℕ, ◌≡◌, refl, sym, ◌∙◌, ap, true, Option, none, some, [], ◌∷◌, ◌≢◌, if-elim, false, ◌==◌,
  if◌then◌else◌, arith,
}
use mathlib.Core.Path.{subst}
use kafka_client.Base.Int.{ℤ, pos}
use kafka_client.Base.Text.{Text}
use kafka_client.Base.Map.{Map}
use kafka_client.Kafka.{Env, Trace, thread_create, alive, created, destroyed, needed}
use kafka_client.Ownership.{Holds, Holds-neutral, Live, Apart}
use kafka_client.Producer.State.{KafkaProducer, EventPoll}
use kafka_client.Producer.Lifecycle.{init_kafka}
use kafka_client.Producer.Lifecycle.Owned.{Owns}
use kafka_client.Producer.Lifecycle.Start.{init_kafka_thread}
use kafka_client.Producer.Session.Started.{init_kafka-Started}
use kafka_client.Producer.Threads.{
  entered, returned, Place, testing, calling, polling, exited, Threads, Reach, next, faults,
  thread_next,
}
use kafka_client.Producer.Threads.Invariant.{Opened, opened, PollsOnly}
use kafka_client.Producer.Threads.Safety.{Ready, closing_lem}
use kafka_client.Producer.Threads.Schedule.{at}
use kafka_client.Producer.Threads.Steps.{Moved, tested, called, answered, thread_next-Moved}

-- The object has a producer and a configuration, and the id of its thread, which polls this
-- producer and has not been told to stop.
pub record Running (p : KafkaProducer) (o : Place) : Type 0 where
  pub object : ℕ
  pub configuration : ℕ
  pub has_object : p.producer ≡ some object
  pub has_configuration : p.global_conf ≡ some configuration
  pub polls_object : p.event_poll.producer ≡ some object
  pub runs : p.event_poll.run ≡ true
  pub identified : p.polling_thread_id ≢ 0
  pub own : PollsOnly object o

-- A change of other members.
pub Running-members :
    {p p' : KafkaProducer} {o : Place}
    → p'.producer ≡ p.producer
    → p'.global_conf ≡ p.global_conf
    → p'.event_poll ≡ p.event_poll
    → p'.polling_thread_id ≡ p.polling_thread_id
    → Running p o
    → Running p' o
Running-members same_producer same_conf same_poll same_id b = record {
  object = b.object;
  configuration = b.configuration;
  has_object = same_producer ∙ b.has_object;
  has_configuration = same_conf ∙ b.has_configuration;
  polls_object = ap (λ (e : EventPoll). e.producer) same_poll ∙ b.polls_object;
  runs = ap (λ (e : EventPoll). e.run) same_poll ∙ b.runs;
  identified = λ none_stored. b.identified (sym same_id ∙ none_stored);
  own = b.own;
}

module _ (env : Env) where
  pub init_kafka-Running :
      (custom : Map) (brokers agent : Text) (time_out : ℤ) (p p' : KafkaProducer) (id : ℕ)
      (tr tr' : Trace)
      → Owns p tr
      → init_kafka env custom brokers agent none time_out p tr
        ≡ (true, p', thread_create (pos 0) id ∷ tr')
      → Running p' testing
  init_kafka-Running custom brokers agent time_out p p' id tr tr' owns e =
      let b = init_kafka-Started env custom brokers agent none time_out p p' tr _ owns tt e in
      let (object, identified) =
        init_kafka_thread env custom brokers agent none p tr time_out p' id tr' e in
      record {
        object = b.object;
        configuration = b.configuration;
        has_object = b.has_object;
        has_configuration = b.has_configuration;
        polls_object = b.polled_object ∙ b.has_object;
        runs = rw object refl;
        identified = identified;
        own = tt;
      }

  polls_own :
      (p : KafkaProducer) (o q : Place) (tr tr' : Trace)
      → (b : Running p o) → Moved p tr o q tr'
      → PollsOnly b.object q
  polls_own p o q tr tr' b tested = if-elim (PollsOnly b.object) p.event_poll.run tt tt
  polls_own p o q tr tr' b (called g found) = some_eq (sym found ∙ b.polls_object)
    where
      some_eq : {m n : ℕ} → some m ≡ some n → m ≡ n
      some_eq q = cc
  polls_own p o q tr tr' b (answered g t) = tt

  -- A step of the thread leaves it running.
  pub thread_next-Running :
      (p : KafkaProducer) (o q : Place) (tr tr' : Trace)
      → Running p o
      → thread_next env o p true tr ≡ next (q, tr')
      → Running p q
  thread_next-Running p o q tr tr' b e = record {
    object = b.object;
    configuration = b.configuration;
    has_object = b.has_object;
    has_configuration = b.has_configuration;
    polls_object = b.polls_object;
    runs = b.runs;
    identified = b.identified;
    own = polls_own p o q tr tr' b (thread_next-Moved env o q p true tr tr' e);
  }

  moved-Holds :
      {s : Option ℕ} (p : KafkaProducer) (o q : Place) (tr tr' : Trace)
      → Running p o
      → Moved p tr o q tr'
      → Holds p.producer p.global_conf s tr
      → Holds p.producer p.global_conf s tr'
  unfolding created destroyed needed
  moved-Holds p o q tr tr' b tested held = held
  moved-Holds p o q tr tr' b (called g found) held = held
  moved-Holds p o q tr tr' b (answered g t) held =
      Holds-neutral _ tr refl refl (rw b.own lives, tt) held
    where
      lives : alive b.object tr ≡ true
      lives = subst (λ h. Live h tr) b.has_object held.live_o

  -- It uses no object but the producer, and leaves what there is.
  pub thread_next-Holds :
      {s : Option ℕ} (p : KafkaProducer) (o q : Place) (tr tr' : Trace)
      → Running p o
      → thread_next env o p true tr ≡ next (q, tr')
      → Holds p.producer p.global_conf s tr
      → Holds p.producer p.global_conf s tr'
  thread_next-Holds p o q tr tr' b e held =
      moved-Holds p o q tr tr' b (thread_next-Moved env o q p true tr tr' e) held

  pub exited_defined :
      (o : Place) (p : KafkaProducer) (tr : Trace)
      → o ≡ exited
      → thread_next env o p true tr ≢ faults
  unfolding thread_next
  exited_defined o p tr out = rw out (λ q. cc)

  pub thread_next_defined :
      (p : KafkaProducer) (o : Place) (tr : Trace)
      → Running p o
      → thread_next env o p true tr ≢ faults
  unfolding thread_next
  thread_next_defined p testing tr b e = cc
  thread_next_defined p calling tr b e = found (rw b.polls_object at e)
    where
      found : {r : Place × Trace} → next r ≡ faults → ⊥
      found q = cc
  thread_next_defined p (polling g t) tr b e = cc
  thread_next_defined p exited tr b e = cc

  module _ (p : KafkaProducer) (o : Place) (tr : Trace) (b : Running p o) (owns : Owns p tr)
      (t : Threads) (r : Reach env (at env [] entered p tr o) t) (back : t.point ≡ returned) where
    abbrev producer : Opened
    producer = record {
      object = b.object;
      configuration = b.configuration;
      time_out = p.event_poll.time_out;
      client = p;
      trace = tr;
    }

    same : opened producer ≡ p
    same =
        let object = sym b.has_object in
        let polled = sym b.polls_object in
        let conf = sym b.has_configuration in
        let run = sym b.runs in
        λ i. record p {
          producer = object i;
          global_conf = conf i;
          event_poll = record {
            producer = polled i;
            run = run i;
            time_out = p.event_poll.time_out;
          };
        }

    ready : Ready producer o []
    ready = record {
      owns = subst (λ q. Owns q tr) (sym same) owns;
      identified = b.identified;
      own = b.own;
      ended = tt;
    }

    run : Reach env (at env [] entered (opened producer) tr o) t
    run = subst (λ q. Reach env (at env [] entered q tr o) t) (sym same) r

    pub closing-exited : t.poller ≡ exited
    closing-exited = (closing_lem producer env o [] t ready run back).1

    pub closing-callback : t.client.producer_callback ≡ p.producer_callback
    closing-callback =
        ap (λ (q : KafkaProducer). q.producer_callback)
          (closing_lem producer env o [] t ready run back).0

    -- `closeKafka` takes nothing but the producer and the configuration, in whatever order its steps
    -- and those of the thread come.
    pub closing-Holds :
        {s : Option ℕ}
        → Holds p.producer p.global_conf s tr
        → Holds t.client.producer t.client.global_conf s t.trace
    closing-Holds {s} held =
        let (client, out, kept, objects) = closing_lem producer env o [] t ready run back in
        rw client (record {
          safe = kept.safe;
          numbered = kept.numbered;
          live_o = tt;
          live_c = tt;
          live_s =
              still s (subst (λ h. Apart h s) b.has_object held.apart_os)
                (subst (λ h. Apart h s) b.has_configuration held.apart_cs) held.live_s;
          apart_oc = tt;
          apart_os = tt;
          apart_cs = tt;
        })
      where
        unequal : {m n : ℕ} → m ≢ n → (m == n) ≡ false
        unequal ne = ground arith

        still :
            (s : Option ℕ)
            → Apart (some b.object) s
            → Apart (some b.configuration) s
            → Live s tr
            → Live s t.trace
        still none apart_o apart_c live = tt
        still (some h) apart_o apart_c live =
            let objects : alive h t.trace ≡ (
                if b.configuration == h
                then false
                else if b.object == h
                then false
                else alive h tr) =
              (closing_lem producer env o [] t ready run back).3 h in
            objects ∙ rw (unequal apart_c, unequal apart_o) live
