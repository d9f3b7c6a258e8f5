-- ===== src/Producer/Lifecycle.antt =====
-- `initKafka`, `pollEvent`, `closeKafka` and the destructor of `KafkaProducer`.
pub mod Owned
pub mod Start
pub mod Frame
pub mod Reports
pub mod Cases
pub mod Closing
pub mod Beside
pub mod Progress
pub mod Reachable
use kafka_client.Base.{
  ℕ, zero, suc, Bool, true, false, not, ◌&&◌, Option, none, some, ◌∷◌, ltb, ◌==◌, if◌then◌else◌,
  is_some,
}
use kafka_client.Base.Int.{ℤ, pos, is_negative}
use kafka_client.Base.Text.{Text}
use kafka_client.Base.Map.{Map}
use kafka_client.Kafka.{
  Env, Trace, fresh, conf_create, producer_create, thread_create, thread_join, poll, outq_len,
  delete_producer, delete_conf, wait_destroyed, Result, ok, running, ◌>>=◌,
}
use kafka_client.Callback.Delivery as Delivery
use kafka_client.Producer.State.{KafkaProducer, set_user_agent}
use kafka_client.Producer.Configure.{set_producer_configuration}

module _ (env : Env) where
  -- `pthread_create`: with the result 0 there is a thread, and its id is stored.
  abbrev pub thread_id : ℤ → Trace → ℕ
  thread_id (pos zero) tr = fresh tr
  thread_id r tr = env.thread_junk tr

  -- The end of `initKafka`: the thread that polls. The test is `pthread_create(...) < 0`.
  unfoldable pub start_polling : ℕ → ℤ → KafkaProducer → Trace → Bool × KafkaProducer × Trace
  start_polling producer time_out p tr =
      let r = env.thread_create tr in
      let id = thread_id r tr in
      (
        not (is_negative r),
        record p {
          producer = some producer;
          event_poll = record { producer = some producer; run = true; time_out = time_out };
          polling_thread_id = id;
        },
        thread_create r id ∷ tr,
      )

  -- The middle: `Producer::create`.
  unfoldable pub create_producer : ℕ → ℤ → KafkaProducer → Trace → Bool × KafkaProducer × Trace
  create_producer conf time_out p tr =
      if env.creates_producer tr
      then start_polling (fresh tr) time_out p (producer_create conf (some (fresh tr)) ∷ tr)
      else (false, record p { producer = none }, producer_create conf none ∷ tr)

  unfoldable pub init_kafka :
      Map → Text → Text → Option ℕ → ℤ → KafkaProducer → Trace → Bool × KafkaProducer × Trace
  unfolding set_user_agent
  init_kafka custom brokers agent callback time_out p tr =
      let conf = fresh tr in
      let p₁ = record (set_user_agent agent (record p { brokers = brokers })) {
        global_conf = some conf;
      } in
      let (configured, c, tr') =
        set_producer_configuration env conf brokers custom callback p.producer_callback
          (conf_create conf ∷ tr) in
      let p₂ = record p₁ { producer_callback = c } in
      if configured then create_producer conf time_out p₂ tr' else (false, p₂, tr')

  -- The result is whether there was a producer to poll.
  abbrev pub poll_once : Option ℕ → ℤ → Trace → Bool × Trace
  poll_once none time_out tr = (false, tr)
  poll_once (some h) time_out tr = (true, poll h time_out ∷ tr)

  unfoldable pub poll_event : ℤ → KafkaProducer → Trace → Bool × Trace
  poll_event time_out p tr = poll_once p.producer time_out tr

  -- `while ( producer != NULL && producer->outq_len() > 0 ) producer->poll(500);`
  unfoldable pub drain : ℕ → Option ℕ → Trace → Result Trace
  drain fuel none tr = ok tr
  drain zero (some h) tr = running
  drain (suc fuel) (some h) tr =
      let n = env.outq_len tr in
      let rest = drain fuel (some h) (poll h (pos 500) ∷ outq_len h n ∷ tr) in
      if ltb 0 n then rest else ok (outq_len h n ∷ tr)

  -- The polling thread is told to stop, and waited for.
  unfoldable pub stop_polling : KafkaProducer → Trace → KafkaProducer × Trace
  stop_polling p tr =
      if p.event_poll.run
      then (
        record p { event_poll = record (p.event_poll) { run = false } },
        if p.polling_thread_id == 0 then tr else thread_join p.polling_thread_id ∷ tr,
      )
      else (p, tr)

  abbrev pub delete_objects : Option ℕ → Option ℕ → Trace → Trace
  delete_objects none none tr = tr
  delete_objects none (some c) tr = delete_conf c ∷ tr
  delete_objects (some h) none tr = delete_producer h ∷ tr
  delete_objects (some h) (some c) tr = delete_conf c ∷ delete_producer h ∷ tr

  -- The two `delete`s and their assignments of NULL.
  unfoldable pub release : KafkaProducer → Trace → KafkaProducer × Trace
  release p tr =
      (record p { producer = none; global_conf = none }, delete_objects p.producer p.global_conf tr)

  -- As one call, in which no other thread takes a step. Producer/Threads has the same in steps.
  unfoldable pub close_kafka : ℕ → KafkaProducer → Trace → Result (KafkaProducer × Trace)
  close_kafka fuel p tr =
      if not (is_some p.producer) && not (is_some p.global_conf) then ok (p, tr) else do
        tr' ← drain fuel p.producer tr
        let (p', tr'') = stop_polling p tr'
        ok (release p' tr'')

-- `~KafkaProducer()`, and the destructor of its member `_producerCallback`.
unfoldable pub destruct : KafkaProducer → Trace → Trace
unfolding Delivery.destruct
destruct p tr = (Delivery.destruct p.producer_callback (wait_destroyed (pos 5000) ∷ tr)).1
