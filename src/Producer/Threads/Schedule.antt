-- ===== src/Producer/Threads/Schedule.antt =====
-- `closeKafka` as one call, in Producer/Lifecycle, is one schedule of the threads.
use kafka_client.Base.{
  ap, sym, ℕ, zero, suc, ◌≡◌, refl, ◌∙◌, inl, inr, true, false, Bool-cases, Option, none, some,
  List, ◌∷◌, ◌==◌, ltb,
}
use mathlib.Core.Path.{subst}
use kafka_client.Base.Int.{pos}
use kafka_client.Kafka.{Env, Trace, poll, outq_len, ok, ok-injective, delete_conf, delete_producer}
use kafka_client.Producer.State.{KafkaProducer}
use kafka_client.Producer.Lifecycle.{drain, stop_polling, release, delete_objects, close_kafka}
use kafka_client.Producer.Lifecycle.Cases.{close_kafka-cases}
use kafka_client.Producer.Threads.Invariant.{Opened, opened}
use kafka_client.Producer.Threads.Safety.{Ready, closing, closing_lem}
use kafka_client.Ownership.Frame.{SameObjects}
use kafka_client.Producer.Threads.{
  Point, entered, asking, emptying, stopping, waiting, deleting, freeing, returned, Place, testing,
  exited, Threads, next, thread_next, close_next, close_at, ask, delete_if, free_if, by_closer,
  by_poller, Reach, start, later,
}

module _ (env : Env) where
  pub Reach-trans : {s t u : Threads} → Reach env s t → Reach env t u → Reach env s u
  Reach-trans r start = r
  Reach-trans r (later q st) = later (Reach-trans r q) st

  one : {s t : Threads} → close_next env s ≡ next t → Reach env s t
  one e = later start (by_closer e)

  first : {s u : Threads} (t : Threads) → close_next env s ≡ next t → Reach env t u → Reach env s u
  first t e r = Reach-trans (one e) r

  module _ (others : List Place) where
    abbrev pub at : Point → KafkaProducer → Trace → Place → Threads
    at q p tr o = record {
      client = p;
      exists = true;
      trace = tr;
      point = q;
      poller = o;
      others = others;
    }

    drain-Reach :
        (fuel : ℕ) (h : Option ℕ) (p : KafkaProducer) (tr tr' : Trace) (o : Place)
        → p.producer ≡ h
        → drain env fuel h tr ≡ ok tr'
        → Reach env (at asking p tr o) (at stopping p tr' o)
    unfolding drain close_at ask
    drain-Reach fuel none p tr tr' o e done = one (rw (e, ok-injective done) refl)
    drain-Reach zero (some h) p tr tr' o e done = absurd (cc)
    drain-Reach (suc fuel) (some h) p tr tr' o e done =
        elim (Bool-cases (ltb 0 (env.outq_len tr))) [
          | inl busy ↦
              first (at emptying p (outq_len h (env.outq_len tr) ∷ tr) o) (simp (e, busy)) (
                first (at asking p (poll h (pos 500) ∷ outq_len h (env.outq_len tr) ∷ tr) o)
                  (simp e) (drain-Reach fuel (some h) p _ tr' o e (rw busy at done)))
          | inr idle ↦ one (simp (e, idle, ok-injective (rw idle at done)))
        ]

    -- The thread reads `bRun` as false, and ends.
    leaves :
        (p : KafkaProducer) (tr : Trace)
        → p.event_poll.run ≡ false
        → Reach env (at waiting p tr testing) (at waiting p tr exited)
    unfolding thread_next
    leaves p tr idle = later start (by_poller exited tr (rw idle refl))

    abbrev stopped : KafkaProducer → KafkaProducer
    stopped p = record p { event_poll = record (p.event_poll) { run = false } }

    stop_polling-Reach :
        (p : KafkaProducer) (tr : Trace)
        → let (p', tr') = stop_polling env p tr in
          (o : Place) × Reach env (at stopping p tr testing) (at deleting p' tr' o)
    unfolding stop_polling close_at
    stop_polling-Reach p tr = elim (Bool-cases p.event_poll.run) [
      | inr idle ↦ (testing, one (simp idle))
      | inl running ↦ elim (Bool-cases (p.polling_thread_id == 0)) [
        | inl unknown ↦ (testing, one (simp (running, unknown)))
        | inr known ↦ (
          exited,
          first (at waiting (stopped p) tr testing) (simp (running, known))
              (Reach-trans (leaves (stopped p) tr refl) (one (simp (running, known)))),
        )
      ]
    ]

    release-Reach :
        (p : KafkaProducer) (tr : Trace) (o : Place) (a b : Option ℕ)
        → p.producer ≡ a
        → p.global_conf ≡ b
        → Reach env (at deleting p tr o) (
            at returned
              (record p { producer = none; global_conf = none })
              (delete_objects env a b tr)
              o)
    unfolding close_at delete_if free_if
    release-Reach p tr o none none e f = first (at freeing p tr o) (simp e) (
        one
          (simp f (λ i. next (at returned (record p { producer = e i; global_conf = f i }) tr o))))
    release-Reach p tr o none (some c) e f = first (at freeing p tr o) (simp e) (
        one (
          simp f (λ i. next (
            at returned (record p { producer = e i; global_conf = none }) (delete_conf c ∷ tr) o))))
    release-Reach p tr o (some h) none e f =
        first (at freeing (record p { producer = none }) (delete_producer h ∷ tr) o) (simp e) (
          one (
            ap
              (λ b. next (
                free_if env b
                  (at freeing (record p { producer = none }) (delete_producer h ∷ tr) o)))
              f
            ∙ (λ i. next (
                at returned (record p { producer = none; global_conf = f i })
                  (delete_producer h ∷ tr) o))))
    release-Reach p tr o (some h) (some c) e f =
        first (at freeing (record p { producer = none }) (delete_producer h ∷ tr) o) (simp e)
          (one (simp f))

    -- Whatever one call of `closeKafka` leaves when it returns, its statements reach in one of the
    -- orders with the steps of the polling thread: the one in which the thread ends while
    -- `closeKafka` waits for it.
    pub close_kafka-Reach :
        (fuel : ℕ) (p p' : KafkaProducer) (tr tr' : Trace)
        → close_kafka env fuel p tr ≡ ok (p', tr')
        → (o : Place) × Reach env (at entered p tr testing) (at returned p' tr' o)
    unfolding close_kafka release close_at
    close_kafka-Reach fuel p p' tr tr' done = elim (close_kafka-cases env fuel p p' tr tr' done) [
      | inl (nothing, same) ↦ (
        testing,
        subst
            (λ (r : KafkaProducer × Trace).
              Reach env (at entered p tr testing) (at returned r.0 r.1 testing))
            same (one (simp nothing)),
      )
      | inr (something, tr₁, drained, finished) ↦
          let (o, stopped) = stop_polling-Reach p tr₁ in
          (
            o,
            subst
                (λ (r : KafkaProducer × Trace).
                  Reach env (at entered p tr testing) (at returned r.0 r.1 o))
                finished
                (first (at asking p tr testing) (simp something) (
                  Reach-trans (drain-Reach fuel p.producer p tr tr₁ testing refl drained)
                    (Reach-trans stopped (release-Reach _ _ o _ _ refl refl)))),
          )
    ]

-- Where the object owns what it points to and has the id of the one thread that polls for it: in
-- whatever order the steps of `closeKafka` and of the polling thread come, the object that
-- `closeKafka` leaves is the one that it leaves as one call, and the same objects exist after it.
pub close_kafka-closing :
    (env : Env) (k : Opened) (others : List Place) (fuel : ℕ) (p' : KafkaProducer) (tr' : Trace)
    (s : Threads)
    → Ready k testing others
    → close_kafka env fuel (opened k) k.trace ≡ ok (p', tr')
    → Reach env (closing k testing others) s
    → s.point ≡ returned
    → (s.client ≡ p') × SameObjects tr' s.trace
close_kafka-closing env k others fuel p' tr' s ready done r left =
    let (o, sequential) = close_kafka-Reach env others fuel (opened k) p' k.trace tr' done in
    let (object, out, held, objects) = closing_lem k env testing others s ready r left in
    let (object', out', held', objects') =
      closing_lem k env testing others _ ready sequential refl in
    (object ∙ sym object', λ j. objects j ∙ sym (objects' j))
