-- ===== src/Producer/Threads/Life.antt =====
-- From `initKafka` to `closeKafka`, with the polling thread's steps between those of `closeKafka`.
use kafka_client.Base.{
  ℕ, ◌≡◌, refl, sym, ◌∙◌, ap, true, Option, none, some, List, ◌∷◌, ◌++◌, ◌≢◌, All,
}
use mathlib.Core.Path.{subst}
use kafka_client.Base.Int.{ℤ, pos}
use kafka_client.Base.Text.{Text}
use kafka_client.Base.Map.{Map}
use kafka_client.Kafka.{Env, Trace, thread_create, alive}
use kafka_client.Ownership.Frame.{back}
use kafka_client.Callback.Delivery.Owned.{Registrable}
use kafka_client.Producer.State.{KafkaProducer, EventPoll}
use kafka_client.Producer.Lifecycle.{init_kafka}
use kafka_client.Producer.Lifecycle.Owned.{Owns}
use kafka_client.Producer.Lifecycle.Start.{init_kafka_thread}
use kafka_client.Producer.Session.{Posted, outbox, Session}
use kafka_client.Producer.Session.Outbox.{Session-outbox}
use kafka_client.Producer.Session.Objects.{Kept, Session-Kept}
use kafka_client.Producer.Session.Started.{remaining, Started, init_kafka-Started}
use kafka_client.Producer.Threads.{entered, returned, Place, testing, exited, Threads, Reach}
use kafka_client.Producer.Threads.Invariant.{Opened, opened}
use kafka_client.Producer.Threads.Safety.{Ready, closing_lem}
use kafka_client.Producer.Threads.Schedule.{at}
use kafka_client.Producer.Threads.Messages.{closing-outbox}

module _ (env : Env) (callback : Option ℕ) (p₀ p₁ p₂ : KafkaProducer) (tr₀ tr₁ tr₂ : Trace)
    (b : Started env callback p₀ tr₀ p₁ tr₁) (kept : Kept p₁ tr₁ p₂ tr₂) where
  -- The producer at the end of a session.
  abbrev producer : Opened
  producer = record {
    object = b.object;
    configuration = b.configuration;
    time_out = p₂.event_poll.time_out;
    client = p₂;
    trace = tr₂;
  }

  has_object : p₂.producer ≡ some b.object
  has_object = kept.producer ∙ b.has_object

  polls_object : p₂.event_poll.producer ≡ some b.object
  polls_object = ap (λ (e : EventPoll). e.producer) kept.event_poll ∙ b.polled_object ∙ b.has_object

  opened-eq : p₁.event_poll.run ≡ true → opened producer ≡ p₂
  opened-eq runs =
      let object = sym has_object in
      let polled = sym polls_object in
      let conf = sym (kept.configuration ∙ b.has_configuration) in
      let run = sym (ap (λ (e : EventPoll). e.run) kept.event_poll ∙ runs) in
      λ i. record p₂ {
        producer = object i;
        global_conf = conf i;
        event_poll = record { producer = polled i; run = run i; time_out = p₂.event_poll.time_out };
      }

  Session-Ready :
      (others : List Place)
      → p₁.event_poll.run ≡ true
      → p₁.polling_thread_id ≢ 0
      → All (λ o. o ≡ exited) others
      → Ready producer testing others
  Session-Ready others runs identified ended = record {
    owns = subst (λ q. Owns q tr₂) (sym (opened-eq runs)) kept.owns;
    identified = λ none_stored. identified (sym kept.thread ∙ none_stored);
    own = tt;
    ended = ended;
  }

module _ (env : Env) where
  -- From an `initKafka` that has answered `true` and started its thread, of an object that owns what
  -- it points to, with a callback, if any, that exists and is new to it, and whose earlier threads
  -- have ended, with any sends, polls and settings that have returned, every `send` at a time whose
  -- milliseconds a `long long` holds, to a `closeKafka` that has returned, in whatever order its
  -- steps and those of the polling thread have come: the thread has ended; exactly the objects exist
  -- that existed before, but the callback that the new one has replaced; the object points to
  -- neither a producer nor a configuration and owns what it points to; no call has used an object
  -- that was gone; and the library has taken over exactly the messages whose `send` answered
  -- `true`, each once and in their order.
  pub init_kafka-closing :
      (custom : Map) (brokers agent : Text) (callback : Option ℕ) (time_out : ℤ) (id : ℕ)
      (l : List Posted) (p₀ p₁ p₂ : KafkaProducer) (tr₀ tr₁ tr₂ : Trace) (others : List Place)
      (s : Threads)
      → Owns p₀ tr₀
      → Registrable callback p₀.producer none p₀.producer_callback.send_callback tr₀
      → All (λ o. o ≡ exited) others
      → init_kafka env custom brokers agent callback time_out p₀ tr₀
        ≡ (true, p₁, thread_create (pos 0) id ∷ tr₁)
      → Session env p₁ (thread_create (pos 0) id ∷ tr₁) l p₂ tr₂
      → Reach env (at env others entered p₂ tr₂ testing) s
      → s.point ≡ returned
      → (s.poller ≡ exited)
        × ((h : ℕ) → alive h s.trace ≡ remaining callback p₀ tr₀ h)
        × (s.client.producer ≡ none)
        × (s.client.global_conf ≡ none)
        × Owns s.client s.trace
        × (outbox s.trace ≡ l ++ outbox tr₀)
  init_kafka-closing custom brokers agent callback time_out id l p₀ p₁ p₂ tr₀ tr₁ tr₂ others s held
        new ended started session r at_end =
      let b : Started env callback p₀ tr₀ p₁ (thread_create (pos 0) id ∷ tr₁) =
        init_kafka-Started env custom brokers agent callback time_out p₀ p₁ tr₀ _ held new
          started in
      let (object, identified) =
        init_kafka_thread env custom brokers agent callback p₀ tr₀ time_out p₁ id tr₁ started in
      let kept = Session-Kept env b.owns b.polled_object session in
      let runs : p₁.event_poll.run ≡ true = rw object refl in
      let k = producer env callback p₀ p₁ p₂ tr₀ _ tr₂ b kept in
      let same = opened-eq env callback p₀ p₁ p₂ tr₀ _ tr₂ b kept runs in
      let ready =
        Session-Ready env callback p₀ p₁ p₂ tr₀ _ tr₂ b kept others runs identified ended in
      let r' = subst (λ q. Reach env (at env others entered q tr₂ testing) s) (sym same) r in
      let (client, out, owns, objects) = closing_lem k env testing others s ready r' at_end in
      (
        out,
        λ h.
            back b.object b.configuration h (remaining callback p₀ tr₀) b.new_object
              b.new_configuration (objects h) (kept.same h ∙ b.objects h),
        ap (λ (q : KafkaProducer). q.producer) client,
        ap (λ (q : KafkaProducer). q.global_conf) client,
        owns,
        closing-outbox env k testing others ready r'
            ∙ Session-outbox session
            ∙ ap (λ t. l ++ t) b.messages,
      )
