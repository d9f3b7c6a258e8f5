-- ===== src/Consumer/Lifecycle/Outcome.antt =====
-- How a consumer starts and ends: in which order the properties are set, what is owned after each
-- call, and when `closeKafka` follows a null pointer.
use kafka_client.Base.{
  ℕ, ◌≡◌, refl, ◌≢◌, ◌⊎◌, inl, inr, Bool, false, Option, none, some, Option-cases, List, ◌∷◌,
  if-elim, arith, ◌∙◌, sym,
}
use mathlib.Core.Path.{subst}
use mathlib.Core.Option.{some-injective}
use kafka_client.Base.Int.{ℤ}
use kafka_client.Base.Text.{Text, c_string}
use kafka_client.Base.Map.{Map}
use kafka_client.Kafka.{
  fault-ok, Env, Trace, fresh, conf_create, consumer_create, consumer_close, delete_consumer, ok,
  fault, null_pointer, created, destroyed, needed, alive, ok-injective,
}
use kafka_client.Config.{set_all}
use kafka_client.Config.Owned.{set_all-Holds}
use kafka_client.Ownership.{Holds, Holds-neutral, Holds-no_object}
use kafka_client.Ownership.Created.{Holds-new_object, Holds-new_configuration}
use kafka_client.Ownership.Destroyed.{
  Holds-deleted_object, Holds-deleted_configuration, alive-destroyed, alive-destroyed_self,
}
use kafka_client.Consumer.State.{KafkaConsumer}
use kafka_client.Consumer.Lifecycle.{
  bootstrap_servers, group_id, set_consumer_configuration, create_consumer, init_kafka, close_kafka,
  delete_configuration,
}

-- What a consumer owns.
abbrev pub Owns : KafkaConsumer → Trace → Type 0
Owns c tr = Holds c.consumer c.global_conf none tr

-- The same object without a consumer and a configuration.
abbrev pub emptied : KafkaConsumer → KafkaConsumer
emptied c = record c { consumer = none; global_conf = none }

module _ (env : Env) where
  -- The brokers and the group come first, as C strings, then the caller's properties in their
  -- order, which may set the same names again: one loop that ends at the first refusal.
  pub set_consumer_configuration-set_all :
      (conf : ℕ) (brokers id : Text) (custom : Map) (tr : Trace)
      → set_consumer_configuration env conf brokers id custom tr
        ≡ set_all env conf
            ((bootstrap_servers, c_string brokers) ∷ (group_id, c_string id) ∷ custom)
            tr
  unfolding set_consumer_configuration
  set_consumer_configuration-set_all conf brokers id custom tr = ground arith

  create_consumer-Holds :
      {s : Option ℕ} (conf : ℕ) (topics : List Text) (c : KafkaConsumer) (tr : Trace)
      → c.global_conf ≡ some conf
      → Holds c.consumer (some conf) s tr
      → let (b, c', tr') = create_consumer env conf topics c tr in
        Holds c'.consumer c'.global_conf s tr'
  unfolding create_consumer needed created destroyed
  create_consumer-Holds {s} conf topics c tr e held =
      if-elim {A = Bool × KafkaConsumer × Trace} (λ r. Holds (r.1).consumer (r.1).global_conf s r.2)
        (env.creates_consumer tr) (rw e (Holds-neutral _ _ refl refl (started.live_o, tt) started))
        (rw e (Holds-neutral _ tr refl refl (held.live_c, tt) (Holds-no_object tr held)))
    where
      started : Holds (some (fresh tr)) (some conf) s (consumer_create conf (some (fresh tr)) ∷ tr)
      started = Holds-new_object _ tr refl refl (held.live_c, tt) held

  -- Beside the objects of the consumer, another one may be held.
  pub init_kafka-Holds :
      {s : Option ℕ} (custom : Map) (brokers : Text) (topics : List Text) (id : Text) (period : ℤ)
      (c : KafkaConsumer) (tr : Trace)
      → Holds c.consumer c.global_conf s tr
      → let (b, c', tr') = init_kafka env custom brokers topics id period c tr in
        Holds c'.consumer c'.global_conf s tr'
  unfolding init_kafka created destroyed needed
  init_kafka-Holds {s} custom brokers topics id period c tr held =
      if-elim {A = Bool × KafkaConsumer × Trace} (λ r. Holds (r.1).consumer (r.1).global_conf s r.2)
        result.0 (create_consumer-Holds (fresh tr) topics _ result.1 refl kept) kept
    where
      result : Bool × Trace
      result =
          set_consumer_configuration env (fresh tr) brokers id custom (conf_create (fresh tr) ∷ tr)

      kept : Holds c.consumer (some (fresh tr)) s result.1
      kept =
          rw
            (set_consumer_configuration-set_all (fresh tr) brokers id custom
              (conf_create (fresh tr) ∷ tr))
            (set_all-Holds env (fresh tr) _ _ (Holds-new_configuration _ tr refl refl tt held))

  -- `initKafka` on an object that owns what it points to, also one that is running already: every
  -- object that the consumer points to afterwards exists, on every path, and no call has used an
  -- object that was gone.
  pub init_kafka-Owns :
      (custom : Map) (brokers : Text) (topics : List Text) (id : Text) (period : ℤ)
      (c : KafkaConsumer) (tr : Trace)
      → Owns c tr
      → let (b, c', tr') = init_kafka env custom brokers topics id period c tr in Owns c' tr'
  init_kafka-Owns custom brokers topics id period c tr held =
      init_kafka-Holds custom brokers topics id period c tr held

  -- The members after `initKafka`, on every path: the brokers, the group and the poll period are
  -- those given, and the configuration is new. The list of topics keeps what it held: the topics
  -- that were given are not stored.
  pub init_kafka-members :
      (custom : Map) (brokers : Text) (topics : List Text) (id : Text) (period : ℤ)
      (c : KafkaConsumer) (tr : Trace)
      → let (_, c', _) = init_kafka env custom brokers topics id period c tr in
        (c'.brokers ≡ brokers)
        × (c'.consumer_id ≡ id)
        × (c'.poll_period ≡ period)
        × (c'.global_conf ≡ some (fresh tr))
        × (c'.topics ≡ c.topics)
  unfolding init_kafka
  init_kafka-members custom brokers topics id period c tr = ground arith

  -- The result of the configuration in `initKafka`.
  abbrev pub configured : Map → Text → Text → Trace → Bool × Trace
  configured custom brokers id tr =
      set_consumer_configuration env (fresh tr) brokers id custom (conf_create (fresh tr) ∷ tr)

  -- If a property is refused or no consumer is created, `initKafka` on an object without a
  -- consumer answers `false`, and the call of `closeKafka` that should free the configuration
  -- follows a null pointer.
  pub close_kafka-init_kafka_failed :
      (custom : Map) (brokers : Text) (topics : List Text) (id : Text) (period : ℤ)
      (c : KafkaConsumer) (tr : Trace)
      → c.consumer ≡ none
      → ((configured custom brokers id tr).0 ≡ false)
        ⊎ (env.creates_consumer (configured custom brokers id tr).1 ≡ false)
      → let (b, c', tr') = init_kafka env custom brokers topics id period c tr in
        (b ≡ false) × (close_kafka c' tr' ≡ fault null_pointer)
  unfolding init_kafka close_kafka
  close_kafka-init_kafka_failed custom brokers topics id period c tr missing failed = ground arith

after_close : ℕ → Option ℕ → Trace → Trace
after_close h g tr = delete_configuration g (delete_consumer h ∷ consumer_close h ∷ tr)

-- Neither the consumer nor its configuration is left, and what was held beside them is.
record Closed (h : ℕ) (g s : Option ℕ) (tr : Trace) : Type 0 where
  pub held : Holds none none s tr
  pub dead : alive h tr ≡ false
  pub dead_configuration : (j : ℕ) → g ≡ some j → alive j tr ≡ false

after_close-Closed :
    (h : ℕ) (g : Option ℕ) {s : Option ℕ} (tr : Trace)
    → Holds (some h) g s tr
    → Closed h g s (after_close h g tr)
unfolding after_close created destroyed needed
after_close-Closed h none {s} tr held = record {
  held = Holds-deleted_object _ h _ refl refl (closing.live_o, tt) closing;
  dead = alive-destroyed_self _ h _ refl refl;
  dead_configuration = λ j e. cc;
}
  where
    closing : Holds (some h) none s (consumer_close h ∷ tr)
    closing = Holds-neutral _ tr refl refl (held.live_o, tt) held
after_close-Closed h (some j) {s} tr held = record {
  held = Holds-deleted_configuration _ j _ refl refl (deleted.live_c, tt) deleted;
  dead = alive-destroyed _ j _ refl refl h held.apart_oc ∙ alive-destroyed_self _ h _ refl refl;
  dead_configuration = λ i e. rw (← some-injective j i e) (alive-destroyed_self _ j _ refl refl);
}
  where
    closing : Holds (some h) (some j) s (consumer_close h ∷ tr)
    closing = Holds-neutral _ tr refl refl (held.live_o, tt) held

    deleted : Holds none (some j) s (delete_consumer h ∷ consumer_close h ∷ tr)
    deleted = Holds-deleted_object _ h _ refl refl (closing.live_o, tt) closing

-- Whenever `closeKafka` returns, the trace is safe, and what was held beside the consumer still is.
pub close_kafka_returns-Holds :
    {s : Option ℕ} (c c' : KafkaConsumer) (tr tr' : Trace)
    → Holds c.consumer c.global_conf s tr
    → close_kafka c tr ≡ ok (c', tr')
    → Holds c'.consumer c'.global_conf s tr'
unfolding close_kafka after_close
close_kafka_returns-Holds {s} c c' tr tr' held e = elim (Option-cases c.consumer) [
  | inl missing ↦ elim (Option-cases c.global_conf) [
    | inl none_either ↦ returned (c, tr) (sym (rw (missing, none_either)) ∙ e) held
    | inr (j, configured) ↦
        absurd (fault-ok {why = null_pointer} (sym (rw (missing, configured)) ∙ e))
  ]
  | inr (h, found) ↦
      returned (emptied c, after_close h c.global_conf tr) (sym (rw found) ∙ e)
        (after_close-Closed h c.global_conf tr (rw found at held)).held
]
  where
    returned :
        (r : KafkaConsumer × Trace)
        → ok r ≡ ok (c', tr')
        → Holds (r.0).consumer (r.0).global_conf s r.1
        → Holds c'.consumer c'.global_conf s tr'
    returned r q kept =
        subst (λ (r : KafkaConsumer × Trace). Holds (r.0).consumer (r.0).global_conf s r.1)
          (ok-injective q) kept

-- `closeKafka` of an object that owns what it points to, on every path. Without a consumer and a
-- configuration it changes nothing. With a configuration alone it follows a null pointer.
-- Otherwise it empties both pointers and the consumer and the configuration are gone, with no call
-- on an object that was gone, and closing once more changes nothing.
pub close_kafka_lem :
    (c : KafkaConsumer) (tr : Trace)
    → Owns c tr
    → ((c.consumer ≡ none) × (c.global_conf ≡ none) × (close_kafka c tr ≡ ok (c, tr)))
      ⊎ ((c.consumer ≡ none) × (c.global_conf ≢ none) × (close_kafka c tr ≡ fault null_pointer))
      ⊎ ((h : ℕ) × (c.consumer ≡ some h)
          × (tr' : Trace) × (close_kafka c tr ≡ ok (emptied c, tr'))
          × Owns (emptied c) tr'
          × (alive h tr' ≡ false)
          × ((j : ℕ) → c.global_conf ≡ some j → alive j tr' ≡ false)
          × (close_kafka (emptied c) tr' ≡ ok (emptied c, tr')))
unfolding close_kafka after_close
close_kafka_lem c tr held = elim (Option-cases c.consumer) [
  | inl missing ↦ elim (Option-cases c.global_conf) [
    | inl none_either ↦ inl (missing, none_either, rw (missing, none_either))
    | inr (j, configured) ↦ inr (inl (missing, λ e. cc, rw (missing, configured)))
  ]
  | inr (h, found) ↦
      let closed = after_close-Closed h c.global_conf tr (rw found at held) in
      inr (
        inr (
          h,
          found,
          after_close h c.global_conf tr,
          rw found,
          closed.held,
          closed.dead,
          closed.dead_configuration,
          refl,
        ))
]
