-- ===== src/Producer/Threads/Dangling.antt =====
-- Two uses of `KafkaProducer` after which a polling thread goes on with something that is gone:
-- `initKafka` called again while its thread runs, and the destructor without `closeKafka`.
use kafka_client.Callback.Delivery as Delivery
use kafka_client.Producer.Lifecycle.Owned.{Owns, init_kafka-Owns}
use kafka_client.Callback.Delivery.Owned.{Registrable}
use kafka_client.Ownership.{Holds-neutral, Live}
use kafka_client.Base.{
  ℕ, ◌≡◌, refl, sym, true, false, Option, List, [], ◌∷◌, ◌≢◌, arith, ◌==◌, contrary, some, none,
  Bool, Bool-cases, inl, inr, ap, ◌∙◌, if◌then◌else◌,
}
use mathlib.Core.Path.{subst}
use kafka_client.Base.Int.{ℤ, pos}
use kafka_client.Base.Text.{Text}
use kafka_client.Base.Map.{Map}
use kafka_client.Kafka.{
  Env, Trace, fresh, poll, outq_len, thread_create, thread_join, delete_producer, created,
  destroyed, needed, IsSafe, delete_send_callback, wait_destroyed,
}
use kafka_client.Ownership.Destroyed.{alive-destroyed_self}
use kafka_client.Producer.State.{KafkaProducer}
use kafka_client.Producer.Lifecycle.{init_kafka, destruct}
use kafka_client.Producer.Lifecycle.Start.{configured_calls, running_object, init_kafka_thread}
use kafka_client.Producer.Threads.{
  Point, entered, asking, stopping, waiting, deleting, freeing, returned, Place, testing, calling,
  exited, polling, Threads, faults, thread_next, close_at, ask, delete_if, by_closer, by_poller,
  by_other, Reach, start, later, initialised, gone,
}
use kafka_client.Producer.Threads.Invariant.{Opened, opened, stopped, without_producer}
use kafka_client.Producer.Threads.Schedule.{at, Reach-trans}

module _ (env : Env) (k : Opened) (others : List Place) where
  not_zero : (n : ℕ) → n ≢ 0 → (n == 0) ≡ false
  not_zero n ne = ground arith

  abbrev polled_after : Trace
  polled_after =
      poll k.object k.time_out
      ∷ delete_producer k.object
      ∷ thread_join k.client.polling_thread_id
      ∷ outq_len k.object 0
      ∷ k.trace

  -- The earlier thread is in `poll`.
  abbrev polled : Point → KafkaProducer → Trace → Place → Threads
  polled = at env (polling k.object k.time_out ∷ others)

  -- It stays there, while the other one ends and `closeKafka` deletes the producer.
  overtaken :
      k.client.polling_thread_id ≢ 0
      → env.outq_len k.trace ≡ 0
      → Reach env (polled entered (opened k) k.trace testing) (
          polled freeing
            (without_producer k)
            (delete_producer k.object
              ∷ thread_join k.client.polling_thread_id
              ∷ outq_len k.object 0
              ∷ k.trace)
            exited)
  unfolding thread_next close_at ask delete_if
  overtaken id idle =
      let asked = outq_len k.object 0 ∷ k.trace in
      let joined = thread_join k.client.polling_thread_id ∷ asked in
      later {t = polled deleting (stopped k) joined exited}
        (later {t = polled waiting (stopped k) asked exited}
          (later {t = polled waiting (stopped k) asked testing}
            (later {t = polled stopping (opened k) asked testing}
              (later {t = polled asking (opened k) k.trace testing} (later start (by_closer refl))
                (by_closer (simp idle)))
              (by_closer (simp (not_zero _ id))))
            (by_poller exited _ refl))
          (by_closer refl))
        (by_closer refl)

  twice_polled :
      k.client.polling_thread_id ≢ 0
      → env.outq_len k.trace ≡ 0
      → Reach env
          (at env (testing ∷ others) entered (opened k) k.trace testing)
          (at env (testing ∷ others) freeing (without_producer k) polled_after exited)
  unfolding thread_next
  twice_polled id idle =
      later
        (Reach-trans env
          (later {t = at env (calling ∷ others) entered (opened k) k.trace testing}
            (later start (by_other [] others testing calling k.trace refl refl))
            (by_other [] others calling (polling k.object k.time_out) k.trace refl refl))
          (overtaken id idle))
        (by_other [] others (polling k.object k.time_out) testing _ refl refl)

  polled_after_unsafe : ¬ IsSafe polled_after
  unfolding created destroyed needed
  polled_after_unsafe ((live, rest), safe) =
      contrary (alive-destroyed_self (delete_producer k.object) k.object _ refl refl) live

-- What the library has been asked for before that `poll`.
abbrev pub deleted_calls : ℕ → ℕ → Trace → Trace
deleted_calls h id tr = delete_producer h ∷ thread_join id ∷ outq_len h 0 ∷ tr

deleted_calls-IsSafe :
    (p : KafkaProducer) (h id : ℕ) (tr : Trace)
    → p.producer ≡ some h
    → Owns p tr
    → IsSafe (deleted_calls h id tr)
unfolding created destroyed needed
deleted_calls-IsSafe p h id tr found owns =
    let live : Live (some h) tr = subst (λ o. Live o tr) found owns.live_o in
    let asked : Owns p (outq_len h 0 ∷ tr) =
      Holds-neutral (outq_len h 0) tr refl refl (live, tt) owns in
    let joined : Owns p (thread_join id ∷ outq_len h 0 ∷ tr) =
      Holds-neutral (thread_join id) (outq_len h 0 ∷ tr) refl refl tt asked in
    (
      (subst (λ o. Live o (thread_join id ∷ outq_len h 0 ∷ tr)) found joined.live_o, tt),
      joined.safe,
    )

module _ (env : Env) (custom : Map) (brokers agent : Text) (callback : Option ℕ) (time_out : ℤ)
    (id : ℕ) (p p' : KafkaProducer) (tr tr' : Trace)
    (starts : init_kafka env custom brokers agent callback time_out p tr
      ≡ (true, p', thread_create (pos 0) id ∷ tr')) where
  abbrev new : KafkaProducer
  new = running_object env custom brokers agent callback p tr time_out

  abbrev object : ℕ
  object = fresh (configured_calls env custom brokers agent callback p tr)

  abbrev reopened : Opened
  reopened = record {
    object = object;
    configuration = fresh tr;
    time_out = time_out;
    client = new;
    trace = thread_create (pos 0) id ∷ tr';
  }

  started : (p' ≡ new) × (p'.polling_thread_id ≢ 0)
  started = init_kafka_thread env custom brokers agent callback p tr time_out p' id tr' starts

  started-Owns :
      Owns p tr
      → Registrable callback p.producer none p.producer_callback.send_callback tr
      → Owns p' (thread_create (pos 0) id ∷ tr')
  started-Owns owns fits =
      subst (λ (r : Bool × KafkaProducer × Trace). Owns r.1 r.2) starts
        (init_kafka-Owns env custom brokers agent callback time_out p tr fits owns)

-- If `initKafka` answers `true`, with a thread started, for an object that owns what it points to,
-- and answers `true` once more, with another thread started, each time with a callback, if any, that
-- exists and is new to the object, and the queue is empty when `closeKafka` is called next: no call
-- so far has used an object that was gone, and in some order of the steps `closeKafka` waits for the
-- later thread, deletes the producer, and then the earlier thread's `poll` of this producer returns,
-- the first call on an object that was gone.
pub init_kafka_twice :
    (env : Env) (custom custom' : Map) (brokers brokers' agent agent' : Text)
    (callback callback' : Option ℕ) (time_out time_out' : ℤ) (id id' : ℕ) (p₀ p₁ p₂ : KafkaProducer)
    (tr₀ tr₁ tr₂ : Trace)
    → Owns p₀ tr₀
    → Registrable callback p₀.producer none p₀.producer_callback.send_callback tr₀
    → init_kafka env custom brokers agent callback time_out p₀ tr₀
      ≡ (true, p₁, thread_create (pos 0) id ∷ tr₁)
    → Registrable callback' p₁.producer none p₁.producer_callback.send_callback
        (thread_create (pos 0) id ∷ tr₁)
    → init_kafka env custom' brokers' agent' callback' time_out' p₁ (thread_create (pos 0) id ∷ tr₁)
      ≡ (true, p₂, thread_create (pos 0) id' ∷ tr₂)
    → env.outq_len (thread_create (pos 0) id' ∷ tr₂) ≡ 0
    → (h : ℕ) × (p₂.producer ≡ some h)
      × (t : Threads) × Reach env
          (initialised p₂
            (thread_create (pos 0) id' ∷ tr₂)
            (initialised p₁ (thread_create (pos 0) id ∷ tr₁) (at env [] entered p₀ tr₀ exited)))
          t
      × (t.trace
          ≡ poll h time_out'
            ∷ deleted_calls h p₂.polling_thread_id (thread_create (pos 0) id' ∷ tr₂))
      × (t.poller ≡ exited)
      × (t.others ≡ testing ∷ exited ∷ [])
      × IsSafe (deleted_calls h p₂.polling_thread_id (thread_create (pos 0) id' ∷ tr₂))
      × (¬ IsSafe t.trace)
unfolding initialised
init_kafka_twice env custom custom' brokers brokers' agent agent' callback callback' time_out
      time_out' id id' p₀ p₁ p₂ tr₀ tr₁ tr₂ owns fits first fits' second idle =
    let k =
      reopened env custom' brokers' agent' callback' time_out' id' p₁ p₂
        (thread_create (pos 0) id ∷ tr₁) tr₂ second in
    let (same, identified) =
      started env custom' brokers' agent' callback' time_out' id' p₁ p₂
        (thread_create (pos 0) id ∷ tr₁) tr₂ second in
    let owns₁ =
      started-Owns env custom brokers agent callback time_out id p₀ p₁ tr₀ tr₁ first owns fits in
    let owns₂ =
      started-Owns env custom' brokers' agent' callback' time_out' id' p₁ p₂
        (thread_create (pos 0) id ∷ tr₁) tr₂ second owns₁ fits' in
    let named : k.client.polling_thread_id ≡ p₂.polling_thread_id =
      ap (λ (q : KafkaProducer). q.polling_thread_id) (sym same) in
    let has_object : p₂.producer ≡ some k.object = ap (λ (q : KafkaProducer). q.producer) same in
    (
      k.object,
      has_object,
      _,
      subst
          (λ q.
            Reach env
              (at env (testing ∷ exited ∷ []) entered q (thread_create (pos 0) id' ∷ tr₂) testing)
              (at env (testing ∷ exited ∷ []) freeing (without_producer k)
                (polled_after env k (exited ∷ [])) exited))
          (sym same)
          (twice_polled env k (exited ∷ []) (λ none_stored. identified (sym named ∙ none_stored))
            idle),
      ap (λ i. poll k.object time_out' ∷ deleted_calls k.object i k.trace) named,
      refl,
      refl,
      deleted_calls-IsSafe p₂ k.object p₂.polling_thread_id k.trace has_object owns₂,
      polled_after_unsafe env k (exited ∷ []),
    )

-- What the destructor asks for: it waits for destroyed handles, and deletes a callback of its own.
abbrev pub destructor_calls : KafkaProducer → Trace → Trace
destructor_calls p tr =
    if p.producer_callback.is_default_callback
    then elim p.producer_callback.send_callback [
      | some h ↦ delete_send_callback h ∷ wait_destroyed (pos 5000) ∷ tr
      | none ↦ wait_destroyed (pos 5000) ∷ tr
    ]
    else wait_destroyed (pos 5000) ∷ tr

destruct-calls : (p : KafkaProducer) (tr : Trace) → destruct p tr ≡ destructor_calls p tr
unfolding destruct Delivery.destruct
destruct-calls p tr = elim (Bool-cases p.producer_callback.is_default_callback) [
  | inl own ↦ rw own refl
  | inr other ↦ rw other refl
]

-- If `initKafka` answers `true`, with a thread started, where no other thread runs, and the
-- destructor comes next, without `closeKafka`: in some order of the steps it makes its calls, the
-- wait of 5000 ms and the deletion of the default callback, none of which stops or joins the thread,
-- and the next step of the thread reads a member of the object, which is gone.
pub destruct_unclosed :
    (env : Env) (custom : Map) (brokers agent : Text) (callback : Option ℕ) (time_out : ℤ) (id : ℕ)
    (p p' : KafkaProducer) (tr tr' : Trace)
    → init_kafka env custom brokers agent callback time_out p tr
      ≡ (true, p', thread_create (pos 0) id ∷ tr')
    → (t : Threads) × Reach env
        (initialised p' (thread_create (pos 0) id ∷ tr') (at env [] returned p tr exited))
        t
      × (t.point ≡ gone)
      × (t.exists ≡ false)
      × (t.trace ≡ destructor_calls p' (thread_create (pos 0) id ∷ tr'))
      × (t.client.event_poll.run ≡ true)
      × (thread_next env t.poller t.client t.exists t.trace ≡ faults)
unfolding thread_next close_at initialised
destruct_unclosed env custom brokers agent callback time_out id p p' tr tr' starts =
    let (same, identified) =
      init_kafka_thread env custom brokers agent callback p tr time_out p' id tr' starts in
    (
      _,
      later start (by_closer refl),
      refl,
      refl,
      destruct-calls p' (thread_create (pos 0) id ∷ tr'),
      rw same refl,
      refl,
    )
