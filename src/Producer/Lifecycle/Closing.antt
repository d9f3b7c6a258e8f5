-- ===== src/Producer/Lifecycle/Closing.antt =====
-- `closeKafka` ends once the queue runs empty, waits for the polling thread before it deletes the
-- producer, and leaves nothing owned; and the thread that could not be started.
use kafka_client.Base.{
  ℕ, zero, suc, ◌≤◌, ◌<◌, ◌≡◌, refl, ◌∙◌, ap, inl, inr, true, false, Bool-cases, Option, none, some,
  ◌∷◌, arith, ltb, ltb→lt, ◌≢◌,
}
use mathlib.Core.Path.{subst}
use mathlib.Core.Option.{some-injective}
use kafka_client.Base.Int.{pos, ℤ}
use kafka_client.Kafka.{
  Env, Trace, poll, outq_len, ok, created, destroyed, needed, alive, thread_join, delete_conf,
}
use kafka_client.Ownership.{Holds}
use kafka_client.Ownership.Destroyed.{alive-destroyed, alive-destroyed_self}
use kafka_client.Producer.State.{KafkaProducer}
use kafka_client.Producer.Lifecycle.{
  drain, stop_polling, release, delete_objects, close_kafka, start_polling,
}
use kafka_client.Producer.Lifecycle.Cases.{close_kafka-cases}
use kafka_client.Producer.Lifecycle.Owned.{
  Owns, drain-Holds, stop_polling-Owns, delete_objects-Holds,
}

ltb_zero : (k : ℕ) → ltb 0 k ≡ false → k ≡ 0
ltb_zero k h = ground arith

module _ (env : Env) where
  -- The calls of `n` rounds of the loop.
  abbrev pub polled : ℕ → ℕ → Trace → Trace
  polled zero h tr = tr
  polled (suc n) h tr = polled n h (poll h (pos 500) ∷ outq_len h (env.outq_len tr) ∷ tr)

  -- The loop that waits for the queue ends after at most `n` rounds, if the queue is empty after
  -- `n` rounds, and it ends by an answer that the queue is empty.
  pub drain-empty :
      (fuel n h : ℕ) (tr : Trace)
      → env.outq_len (polled n h tr) ≡ 0
      → n < fuel
      → (m : ℕ) × (m ≤ n) × (drain env fuel (some h) tr ≡ ok (outq_len h 0 ∷ polled m h tr))
  unfolding drain
  drain-empty zero n h tr e lt = absurd (omega arith)
  drain-empty (suc fuel) n h tr e lt = elim (Bool-cases (ltb 0 (env.outq_len tr))) [
    | inr idle ↦ (zero, omega arith, rw idle (ap (λ k. ok (outq_len h k ∷ tr)) (ltb_zero _ idle)))
    | inl busy ↦ step (λ k. drain-empty fuel k h after) n e lt busy
  ]
    where
      after : Trace
      after = poll h (pos 500) ∷ outq_len h (env.outq_len tr) ∷ tr

      step :
          ((n : ℕ)
            → env.outq_len (polled n h after) ≡ 0
            → n < fuel
            → (m : ℕ) × (m ≤ n)
              × (drain env fuel (some h) after ≡ ok (outq_len h 0 ∷ polled m h after)))
          → (n : ℕ) → env.outq_len (polled n h tr) ≡ 0
          → n < suc fuel
          → ltb 0 (env.outq_len tr) ≡ true
          → (m : ℕ) × (m ≤ n)
            × (drain env (suc fuel) (some h) tr ≡ ok (outq_len h 0 ∷ polled m h tr))
      step later zero e lt busy = absurd (omega (arith, ltb→lt 0 (env.outq_len tr) busy))
      step later (suc n) e lt busy =
          let (m, le, done) = later n e (omega arith) in (suc m, omega (arith, le), rw busy done)

  -- The dead objects after the two `delete`s.
  dead_objects :
      (o c : Option ℕ) {s : Option ℕ} (tr : Trace)
      → Holds o c s tr
      → let tr' = delete_objects env o c tr in
        ((h : ℕ) → o ≡ some h → alive h tr' ≡ false) × ((j : ℕ) → c ≡ some j → alive j tr' ≡ false)
  unfolding created destroyed needed
  dead_objects none none tr held = (λ h e. cc, λ j e. cc)
  dead_objects none (some c) tr held =
      (λ h e. cc, λ j e. rw (← some-injective c j e) (alive-destroyed_self _ c tr refl refl))
  dead_objects (some o) none tr held =
      (λ h e. rw (← some-injective o h e) (alive-destroyed_self _ o tr refl refl), λ j e. cc)
  dead_objects (some o) (some c) tr held = (
    λ h e.
        rw (← some-injective o h e)
          (alive-destroyed _ c _ refl refl o held.apart_oc ∙ alive-destroyed_self _ o tr refl refl),
    λ j e. rw (← some-injective c j e) (alive-destroyed_self _ c _ refl refl),
  )

  -- Stopping the thread touches no other member.
  pub stop_polling-members :
      (p : KafkaProducer) (tr : Trace)
      → let p' = (stop_polling env p tr).0 in
        (p'.producer ≡ p.producer) × (p'.global_conf ≡ p.global_conf)
  unfolding stop_polling
  stop_polling-members p tr = ground arith

  -- `closeKafka` on a producer that owns what it points to: when the queue has run empty, the
  -- polling thread is joined, if it was started, before the producer and then the configuration are
  -- deleted. Nothing but the callback stays owned, and closing once more changes nothing.
  pub close_kafka-Owns :
      (fuel h : ℕ) (p : KafkaProducer) (tr tr₁ : Trace)
      → Owns p tr
      → p.producer ≡ some h
      → drain env fuel (some h) tr ≡ ok tr₁
      → (p' : KafkaProducer) × (tr' : Trace) × (close_kafka env fuel p tr ≡ ok (p', tr'))
        × (tr' ≡ delete_objects env (some h) p.global_conf (stop_polling env p tr₁).1)
        × (p'.producer ≡ none)
        × (p'.global_conf ≡ none)
        × Owns p' tr'
        × (alive h tr' ≡ false)
        × ((j : ℕ) → p.global_conf ≡ some j → alive j tr' ≡ false)
        × ((n : ℕ) → close_kafka env n p' tr' ≡ ok (p', tr'))
  unfolding close_kafka release
  close_kafka-Owns fuel h p tr tr₁ held found drained = (
    record (stopped.0) { producer = none; global_conf = none },
    delete_objects env (stopped.0).producer (stopped.0).global_conf stopped.1,
    rw (found, drained),
    rw (members.0, members.1, found),
    refl,
    refl,
    delete_objects-Holds env _ _ stopped.1 kept,
    (dead_objects _ _ stopped.1 kept).0 h (members.0 ∙ found),
    λ j e. (dead_objects _ _ stopped.1 kept).1 j (members.1 ∙ e),
    λ n. refl,
  )
    where
      stopped : KafkaProducer × Trace
      stopped = stop_polling env p tr₁

      members : ((stopped.0).producer ≡ p.producer) × ((stopped.0).global_conf ≡ p.global_conf)
      members = stop_polling-members p tr₁

      kept : Owns stopped.0 stopped.1
      kept =
          stop_polling-Owns env p tr₁
            (drain-Holds env fuel p.producer tr tr₁ held (rw found drained))

  -- `closeKafka` of a producer that owns what it points to ends if the queue is empty after `n`
  -- rounds of its loop and the fuel is more: the last call of the loop has answered that the queue
  -- is empty, then the polling thread is joined if it was started and its id is not 0, and the
  -- producer and the configuration are deleted; nothing but the callback stays owned, no call has
  -- used an object that was gone, and closing once more changes nothing.
  pub close_kafka_ends :
      (fuel n h : ℕ) (p : KafkaProducer) (tr : Trace)
      → Owns p tr
      → p.producer ≡ some h
      → env.outq_len (polled n h tr) ≡ 0
      → n < fuel
      → (m : ℕ) × (m ≤ n)
        × (p' : KafkaProducer) × (tr' : Trace) × (close_kafka env fuel p tr ≡ ok (p', tr'))
        × (tr'
            ≡ delete_objects env
                (some h)
                p.global_conf
                (stop_polling env p (outq_len h 0 ∷ polled m h tr)).1)
        × (p'.producer ≡ none)
        × (p'.global_conf ≡ none)
        × Owns p' tr'
        × (alive h tr' ≡ false)
        × ((j : ℕ) → p.global_conf ≡ some j → alive j tr' ≡ false)
        × ((n : ℕ) → close_kafka env n p' tr' ≡ ok (p', tr'))
  close_kafka_ends fuel n h p tr held found empty lt =
      let (m, le, drained) = drain-empty fuel n h tr empty lt in
      let (p', tr', done, calls, gone, gone_conf, kept, dead, dead_conf, again) =
        close_kafka-Owns fuel h p tr _ held found drained in
      (m, le, p', tr', done, calls, gone, gone_conf, kept, dead, dead_conf, again)

  -- Whenever `closeKafka` returns, what is owned is what the object points to.
  pub close_kafka_returns-Owns :
      (fuel : ℕ) (p : KafkaProducer) (tr : Trace) (p' : KafkaProducer) (tr' : Trace)
      → Owns p tr
      → close_kafka env fuel p tr ≡ ok (p', tr')
      → Owns p' tr'
  unfolding close_kafka release
  close_kafka_returns-Owns fuel p tr p' tr' held e =
      elim (close_kafka-cases env fuel p p' tr tr' e) [
        | inl (nothing, same) ↦ subst (λ (r : KafkaProducer × Trace). Owns r.0 r.1) same held
        | inr (something, tr₁, drained, done) ↦
            subst (λ (r : KafkaProducer × Trace). Owns r.0 r.1) done
              (delete_objects-Holds env _ _ _
                (stop_polling-Owns env p tr₁ (drain-Holds env fuel p.producer tr tr₁ held drained)))
      ]

  stop_polling_idle :
      (p : KafkaProducer) (tr : Trace) → p.event_poll.run ≡ false → stop_polling env p tr ≡ (p, tr)
  unfolding stop_polling
  stop_polling_idle p tr idle = ground arith

  -- `closeKafka` of a producer that owns what it points to, and has a configuration but no
  -- producer and no polling thread, returns with any fuel: it deletes the configuration, and what
  -- is owned still is what the object points to.
  pub close_kafka_unopened :
      (fuel j : ℕ) (p : KafkaProducer) (tr : Trace)
      → Owns p tr
      → p.producer ≡ none
      → p.global_conf ≡ some j
      → p.event_poll.run ≡ false
      → let p' = record p { producer = none; global_conf = none } in
        let tr' = delete_conf j ∷ tr in
        (close_kafka env fuel p tr ≡ ok (p', tr')) × Owns p' tr' × (alive j tr' ≡ false)
  unfolding close_kafka release drain created destroyed
  close_kafka_unopened fuel j p tr held missing configured idle = (
    closes,
    close_kafka_returns-Owns fuel p tr _ _ held closes,
    alive-destroyed_self _ j tr refl refl,
  )
    where
      closes :
          close_kafka env fuel p tr
          ≡ ok (record p { producer = none; global_conf = none }, delete_conf j ∷ tr)
      closes = simp (missing, configured, stop_polling_idle p tr idle)

  -- If `pthread_create` answers a failure by a positive number, the end of `initKafka` answers
  -- `true` with `bRun` set all the same, and the end of the thread in `closeKafka` joins what was
  -- left in the thread's id, if that is not 0.
  pub start_polling_failed :
      (producer e : ℕ) (time_out : ℤ) (p : KafkaProducer) (tr tr' : Trace)
      → env.thread_create tr ≡ pos (suc e)
      → env.thread_junk tr ≢ 0
      → let (b, p', _) = start_polling env producer time_out p tr in
        (b ≡ true)
        × (p'.event_poll.run ≡ true)
        × ((stop_polling env p' tr').1 ≡ thread_join (env.thread_junk tr) ∷ tr')
  unfolding start_polling stop_polling
  start_polling_failed producer e time_out p tr tr' failed junk = rw failed (ground arith)
