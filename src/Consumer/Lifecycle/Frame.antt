-- ===== src/Consumer/Lifecycle/Frame.antt =====
-- Which objects a consumer's `initKafka` adds.
use kafka_client.Base.{ℕ, ◌≡◌, refl, true, false, some, List, ◌∷◌, arith, ◌==◌, if◌then◌else◌}
use kafka_client.Base.Text.{Text}
use kafka_client.Base.Map.{Map}
use kafka_client.Kafka.{
  Env, Trace, fresh, created, destroyed, alive, conf_create, consumer_create, consumer_close,
  delete_consumer, delete_conf,
}
use kafka_client.Ownership.{alive-neutral}
use kafka_client.Ownership.Frame.{all_set-SameObjects, alive-new, alive-gone}
use kafka_client.Consumer.Lifecycle.Start.{properties, configured_calls, created_calls}

module _ (env : Env) (custom : Map) (brokers : Text) (topics : List Text) (id : Text)
    (tr : Trace) where
  -- The configuration and the consumer are added.
  pub created_calls-objects :
      (h : ℕ)
      → alive h (created_calls env custom brokers topics id tr) ≡ (
          if fresh (configured_calls env custom brokers topics id tr) == h
          then true
          else if fresh tr == h
          then true
          else alive h tr)
  unfolding created destroyed
  created_calls-objects h =
      let configured : alive h (configured_calls env custom brokers topics id tr)
          ≡ alive h (conf_create (fresh tr) ∷ tr) =
        all_set-SameObjects env (fresh tr) (properties brokers id custom)
          (conf_create (fresh tr) ∷ tr) h in
      ground (
        arith,
        alive-new (conf_create (fresh tr)) (fresh tr) h tr refl refl,
        alive-new
            (consumer_create (fresh tr)
              (some (fresh (configured_calls env custom brokers topics id tr))))
            (fresh (configured_calls env custom brokers topics id tr)) h
            (configured_calls env custom brokers topics id tr) refl refl,
      )

-- The calls of `closeKafka` of a consumer.
abbrev pub closing_calls : ℕ → ℕ → Trace → Trace
closing_calls o g tr = delete_conf g ∷ delete_consumer o ∷ consumer_close o ∷ tr

-- They take both away.
pub closing_calls-objects :
    (o g h : ℕ) (tr : Trace)
    → alive h (closing_calls o g tr)
      ≡ (if g == h then false else if o == h then false else alive h tr)
unfolding created destroyed
closing_calls-objects o g h tr = ground (
  arith,
  alive-neutral (consumer_close o) h tr refl refl,
  alive-gone (delete_consumer o) o h (consumer_close o ∷ tr) refl refl,
  alive-gone (delete_conf g) g h (delete_consumer o ∷ consumer_close o ∷ tr) refl refl,
)
