-- ===== src/Consumer/Session/Life.antt =====
-- From a consumer's `initKafka` to its `closeKafka`: the objects that come and go, and the messages.
use kafka_client.Base.{
  ℕ, ◌≡◌, refl, sym, ◌∙◌, ap, inl, inr, Bool, true, false, Option, none, some, List, [], ◌∷◌, ◌++◌,
  arith, if◌then◌else◌, ◌==◌,
}
use mathlib.Core.Path.{subst}
use kafka_client.Base.Int.{ℤ}
use kafka_client.Base.Text.{Text}
use kafka_client.Base.Map.{Map}
use kafka_client.Kafka.{
  Env, Trace, fresh, Message, ok, ok-injective, alive, created, destroyed, conf_create,
}
use kafka_client.Config.Order.{all_set}
use kafka_client.Ownership.{Holds, alive-neutral}
use kafka_client.Ownership.Frame.{SameObjects, fresh-dead, later-dead, all_set-longer, back}
use kafka_client.ReceivedMessage.{ReceivedMessage}
use kafka_client.Consumer.State.{KafkaConsumer, set_debug_mode, set_poll_period}
use kafka_client.Consumer.Receive.{consume_message}
use kafka_client.Consumer.Receive.Owned.{consume_message-Holds}
use kafka_client.Consumer.Receive.Frame.{next_message-SameObjects}
use kafka_client.Consumer.Lifecycle.{init_kafka, close_kafka}
use kafka_client.Consumer.Lifecycle.Outcome.{init_kafka-Holds, close_kafka_returns-Holds}
use kafka_client.Consumer.Lifecycle.Start as Start
use kafka_client.Consumer.Lifecycle.Frame.{created_calls-objects, closing_calls-objects}
use kafka_client.Consumer.Session.{
  AllStored, inbox, Session, opened, received, missed, other_object, timed, debugged,
}
use kafka_client.Consumer.Session.Inbox.{consume_message-Outcome, Session-inbox}

-- What an open session leaves as it was.
record Kept (s : Option ℕ) (c₀ : KafkaConsumer) (tr₀ : Trace) (c : KafkaConsumer) (tr : Trace)
    : Type 0 where
  pub held : Holds c.consumer c.global_conf s tr
  pub same : SameObjects tr₀ tr
  pub consumer : c.consumer ≡ c₀.consumer
  pub configuration : c.global_conf ≡ c₀.global_conf

module _ (env : Env) where
  consumed-Kept :
      {s : Option ℕ} {c₀ : KafkaConsumer} {tr₀ : Trace} (c : KafkaConsumer) (r r' : ReceivedMessage)
      (b : Bool) (tr tr' : Trace)
      → consume_message env c r tr ≡ ok (b, r', tr')
      → Kept s c₀ tr₀ c tr
      → Kept s c₀ tr₀ c tr'
  consumed-Kept {s} c r r' b tr tr' e k =
      let (h, found, calls, outcome) = consume_message-Outcome env c r r' b tr tr' e in
      record {
        held = consume_message-Holds env c r r' b tr tr' k.held e;
        same = λ j.
            ap (alive j) calls
            ∙ next_message-SameObjects env c h tr (fresh-dead tr k.held) j
            ∙ k.same j;
        consumer = k.consumer;
        configuration = k.configuration;
      }

  Session-Kept :
      {s : Option ℕ} {c₀ : KafkaConsumer} {tr₀ : Trace} {l : List ReceivedMessage}
      {c : KafkaConsumer} {r : ReceivedMessage} {tr : Trace}
      → Holds c₀.consumer c₀.global_conf s tr₀
      → Session env c₀ tr₀ l c r tr
      → Kept s c₀ tr₀ c tr
  unfolding set_poll_period set_debug_mode
  Session-Kept held (opened r) = record {
    held = held;
    same = λ h. refl;
    consumer = refl;
    configuration = refl;
  }
  Session-Kept held (received {c = c} {r = r} {tr = tr} r' tr' e s) =
      consumed-Kept c r r' true tr tr' e (Session-Kept held s)
  Session-Kept held (missed {c = c} {r = r} {tr = tr} r' tr' e s) =
      consumed-Kept c r r' false tr tr' e (Session-Kept held s)
  Session-Kept held (other_object r' s) = Session-Kept held s
  Session-Kept held (timed t s) =
      let k = Session-Kept held s in
      record {
        held = k.held;
        same = k.same;
        consumer = k.consumer;
        configuration = k.configuration;
      }
  Session-Kept held (debugged b s) =
      let k = Session-Kept held s in
      record {
        held = k.held;
        same = k.same;
        consumer = k.consumer;
        configuration = k.configuration;
      }

  -- What `initKafka` adds: a consumer and a configuration, which were not there.
  record Started (s : Option ℕ) (tr : Trace) (c : KafkaConsumer) (tr' : Trace) : Type 0 where
    pub object : ℕ
    pub configuration : ℕ
    pub has_object : c.consumer ≡ some object
    pub has_configuration : c.global_conf ≡ some configuration
    pub new_object : alive object tr ≡ false
    pub new_configuration : alive configuration tr ≡ false
    pub held : Holds c.consumer c.global_conf s tr'
    pub messages : inbox tr' ≡ inbox tr
    pub objects :
        (h : ℕ)
        → alive h tr'
          ≡ (if object == h then true else if configuration == h then true else alive h tr)

  all_set-inbox : (conf : ℕ) (m : Map) (tr : Trace) → inbox (all_set env conf m tr) ≡ inbox tr
  all_set-inbox conf [] tr = refl
  all_set-inbox conf ((k, v) ∷ m) tr = all_set-inbox conf m _

  init_kafka-Started :
      {s : Option ℕ} (custom : Map) (brokers : Text) (topics : List Text) (id : Text) (period : ℤ)
      (c c' : KafkaConsumer) (tr tr' : Trace)
      → Holds c.consumer c.global_conf s tr
      → init_kafka env custom brokers topics id period c tr ≡ (true, c', tr')
      → Started s tr c' tr'
  unfolding created destroyed
  init_kafka-Started {s} custom brokers topics id period c c' tr tr' held e =
      elim (Start.init_kafka-Subscribes env custom brokers topics id tr period c) [
        | inr (refused, f) ↦
            absurd (false_true (sym f ∙ ap (λ (r : Bool × KafkaConsumer × Trace). r.0) e))
        | inl (starts, f) ↦
            subst (λ (r : Bool × KafkaConsumer × Trace). Started s tr r.1 r.2) (sym f ∙ e)
              record {
                object = fresh (Start.configured_calls env custom brokers topics id tr);
                configuration = fresh tr;
                has_object = refl;
                has_configuration = refl;
                new_object = later-dead _ tr held (
                    omega (
                      arith,
                      all_set-longer env (fresh tr) (Start.properties brokers id custom)
                          (conf_create (fresh tr) ∷ tr),
                    ));
                new_configuration = fresh-dead tr held;
                held =
                    subst
                      (λ (r : Bool × KafkaConsumer × Trace).
                        Holds (r.1).consumer (r.1).global_conf s r.2)
                      f (init_kafka-Holds env custom brokers topics id period c tr held);
                messages = all_set-inbox (fresh tr) (Start.properties brokers id custom) _;
                objects = λ h.
                    alive-neutral _ h _ refl refl
                    ∙ created_calls-objects env custom brokers topics id tr h;
              }
      ]
    where
      false_true : false ≡ true → ⊥
      false_true q = cc

  -- What `closeKafka` leaves: neither of the two objects, and the messages.
  abbrev Emptied : ℕ → ℕ → Trace → KafkaConsumer × Trace → Type 0
  Emptied o g tr (c', tr') =
      (c'.consumer ≡ none)
      × (c'.global_conf ≡ none)
      × (inbox tr' ≡ inbox tr)
      × ((h : ℕ) → alive h tr' ≡ (if g == h then false else if o == h then false else alive h tr))

  close_kafka-Emptied :
      (o g : ℕ) (c c' : KafkaConsumer) (tr tr' : Trace)
      → c.consumer ≡ some o
      → c.global_conf ≡ some g
      → close_kafka c tr ≡ ok (c', tr')
      → Emptied o g tr (c', tr')
  unfolding close_kafka
  close_kafka-Emptied o g c c' tr tr' found configured e =
      subst (Emptied o g tr) (ok-injective (rw (found, configured) at e))
        (refl, refl, refl, λ h. closing_calls-objects o g h tr)

  -- From an `initKafka` that has answered `true`, of an object that owns what it points to, to a
  -- `closeKafka` that has returned, with any calls of `consume` and settings that have returned
  -- between: exactly the objects exist that existed before, the
  -- object points to neither a consumer nor a configuration, what was owned beside it still is, no
  -- call has used an object that was gone, and exactly the messages that the library has given
  -- without an error were received, each once and in their order.
  pub init_kafka-Session :
      {s : Option ℕ} (custom : Map) (brokers : Text) (topics : List Text) (id : Text) (period : ℤ)
      (l : List ReceivedMessage) (r : ReceivedMessage) (c₀ c₁ c₂ c₃ : KafkaConsumer)
      (tr₀ tr₁ tr₂ tr₃ : Trace)
      → Holds c₀.consumer c₀.global_conf s tr₀
      → init_kafka env custom brokers topics id period c₀ tr₀ ≡ (true, c₁, tr₁)
      → Session env c₁ tr₁ l c₂ r tr₂
      → close_kafka c₂ tr₂ ≡ ok (c₃, tr₃)
      → SameObjects tr₀ tr₃
        × (c₃.consumer ≡ none)
        × (c₃.global_conf ≡ none)
        × Holds c₃.consumer c₃.global_conf s tr₃
        × (ms : List Message) × (inbox tr₃ ≡ ms ++ inbox tr₀)
        × AllStored ms l
  init_kafka-Session {s} custom brokers topics id period l r c₀ c₁ c₂ c₃ tr₀ tr₁ tr₂ tr₃ held
        started session closed =
      let b = init_kafka-Started custom brokers topics id period c₀ c₁ tr₀ tr₁ held started in
      let k = Session-Kept b.held session in
      let (ms, given, stored) = Session-inbox session in
      let (emptied, unconfigured, messages, objects) =
        close_kafka-Emptied b.object b.configuration c₂ c₃ tr₂ tr₃ (k.consumer ∙ b.has_object)
          (k.configuration ∙ b.has_configuration) closed in
      (
        λ h.
            back b.object b.configuration h (λ i. alive i tr₀) b.new_object b.new_configuration
              (objects h) (k.same h ∙ b.objects h),
        emptied,
        unconfigured,
        close_kafka_returns-Holds c₂ c₃ tr₂ tr₃ k.held closed,
        ms,
        messages ∙ given ∙ ap (λ (l : List Message). ms ++ l) b.messages,
        stored,
      )
