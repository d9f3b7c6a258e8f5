-- ===== src/Producer/Lifecycle/Progress.antt =====
-- `closeKafka` ends if every poll makes progress.
use kafka_client.Base.{
  ℕ, zero, suc, ◌≤◌, ◌<◌, ◌≡◌, inl, inr, false, Bool-cases, none, some, ◌∷◌, arith, ltb, Option,
  refl, ◌∙◌, ◌==◌, if◌then◌else◌,
}
use kafka_client.Base.Int.{pos}
use kafka_client.Kafka.{
  Env, Trace, ok, poll, outq_len, alive, thread_join, delete_producer, delete_conf,
}
use kafka_client.Producer.State.{KafkaProducer}
use kafka_client.Producer.Lifecycle.{close_kafka, stop_polling, delete_objects}
use kafka_client.Producer.Lifecycle.Owned.{Owns}
use kafka_client.Producer.Lifecycle.Frame.{Drains, drain-Drains}
use kafka_client.Producer.Lifecycle.Closing.{polled, close_kafka-Owns}

module _ (env : Env) where
  -- Only so many polls for half a second find the queue not empty: librdkafka reports each message as
  -- delivered or failed, at the latest at its timeout, and nothing is sent meanwhile.
  abbrev pub Progress : (Trace → ℕ) → ℕ → Type 0
  Progress polls_left h =
      (tr : Trace)
      → 0 < env.outq_len tr
      → polls_left (poll h (pos 500) ∷ outq_len h (env.outq_len tr) ∷ tr) < polls_left tr

  -- The polling thread is joined, if it was started and its id is not 0.
  abbrev pub joined : KafkaProducer → Trace → Trace
  joined p tr =
      if p.event_poll.run
      then if p.polling_thread_id == 0 then tr else thread_join p.polling_thread_id ∷ tr
      else tr

  -- The producer is deleted, and then the configuration, if there is one.
  abbrev pub deleted : ℕ → Option ℕ → Trace → Trace
  deleted h none tr = delete_producer h ∷ tr
  deleted h (some c) tr = delete_conf c ∷ delete_producer h ∷ tr

  close_kafka-calls :
      (h : ℕ) (conf : Option ℕ) (p : KafkaProducer) (tr : Trace)
      → delete_objects env (some h) conf (stop_polling env p tr).1 ≡ deleted h conf (joined p tr)
  unfolding stop_polling
  close_kafka-calls h none p tr = elim (Bool-cases p.event_poll.run) [
    | inl running ↦ rw running refl
    | inr idle ↦ rw idle refl
  ]
  close_kafka-calls h (some c) p tr = elim (Bool-cases p.event_poll.run) [
    | inl running ↦ rw running refl
    | inr idle ↦ rw idle refl
  ]

  Drains-Progress :
      (m : ℕ) (polls_left : Trace → ℕ) (h : ℕ) (tr : Trace)
      → Progress polls_left h
      → polls_left tr ≤ m
      → (n : ℕ) × (n ≤ m) × Drains env n h tr
  Drains-Progress zero polls_left h tr progress le = elim (Bool-cases (ltb 0 (env.outq_len tr))) [
    | inr idle ↦ (0, omega arith, ground arith)
    | inl busy ↦ absurd (omega (arith, progress tr (ground arith)))
  ]
  Drains-Progress (suc m) polls_left h tr progress le =
      elim (Bool-cases (ltb 0 (env.outq_len tr))) [
        | inr idle ↦ (0, omega arith, ground arith)
        | inl busy ↦
            let (n, small, drains) =
              Drains-Progress m polls_left h (poll h (pos 500) ∷ outq_len h (env.outq_len tr) ∷ tr)
                progress (omega (arith, progress tr (ground arith))) in
            (suc n, omega arith, (busy, drains))
      ]

  -- If only so many polls for half a second find the queue not empty, as a number says that is less
  -- after each of them: with more fuel than that number at first, `closeKafka` of a producer that
  -- owns what it points to returns within as many rounds of its loop, having asked once more and
  -- found the queue empty, joined the polling thread if it was started and its id is not 0, and
  -- deleted the producer and the configuration, with no call on an object that was gone.
  pub close_kafka-Progress :
      (polls_left : Trace → ℕ) (fuel h : ℕ) (p : KafkaProducer) (tr : Trace)
      → Progress polls_left h
      → Owns p tr
      → p.producer ≡ some h
      → polls_left tr < fuel
      → (n : ℕ) × (n ≤ polls_left tr)
        × (p' : KafkaProducer) × (tr' : Trace) × (close_kafka env fuel p tr ≡ ok (p', tr'))
        × (tr' ≡ deleted h p.global_conf (joined p (outq_len h 0 ∷ polled env n h tr)))
        × (p'.producer ≡ none)
        × (p'.global_conf ≡ none)
        × Owns p' tr'
        × (alive h tr' ≡ false)
        × ((j : ℕ) → p.global_conf ≡ some j → alive j tr' ≡ false)
  close_kafka-Progress polls_left fuel h p tr progress held found lt =
      let (n, le, drains) =
        Drains-Progress (polls_left tr) polls_left h tr progress (omega arith) in
      let (p', tr', done, calls, gone, unconfigured, kept, dead, dead_conf, again) =
        close_kafka-Owns env fuel h p tr _ held found
          (drain-Drains env fuel n h tr drains (omega arith)) in
      (
        n,
        le,
        p',
        tr',
        done,
        calls ∙ close_kafka-calls h p.global_conf p _,
        gone,
        unconfigured,
        kept,
        dead,
        dead_conf,
      )
