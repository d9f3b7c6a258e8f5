-- ===== src/Tests/Starting.antt =====
-- A producer that is initialised: what is accepted, what runs, and where its reports go.
use kafka_client.Base.{ℕ, ◌≡◌, ◌≢◌, ◌⊎◌, true, false, none, some, [], ◌∷◌}
use kafka_client.Base.Int.{pos}
use kafka_client.Base.Text.{codes}
use kafka_client.Kafka.{ok, alive, not_persisted, thread_create}
use kafka_client.Callback.Delivery.{success, fail, dr_cb}
use kafka_client.Producer.State.{construct}
use kafka_client.Producer.Lifecycle.{init_kafka, thread_id}
use kafka_client.Producer.Lifecycle.Start.{created_calls, Starts, running_object, init_kafka-Starts}
use kafka_client.Producer.Lifecycle.Reachable.{constructed, initialised}
use kafka_client.Producer.Lifecycle.Reports.{Reach-dr_cb}
use kafka_client.Tests.{env, custom, running_trace, running_producer, small_message}

init_kafka-Starts_example :
    let brokers = codes "localhost:9092" in
    let agent = codes "tests" in
    let calls = created_calls env custom brokers agent none running_producer running_trace in
    let result =
      init_kafka env custom brokers agent none (pos 100) running_producer running_trace in
    (Starts env custom brokers agent none running_producer running_trace
      × (result ≡ (
        true,
        running_object env custom brokers agent none running_producer running_trace (pos 100),
        thread_create (pos 0) (thread_id env (pos 0) calls) ∷ calls,
      )))
    ⊎ (¬ Starts env custom brokers agent none running_producer running_trace × (result.0 ≡ false))
init_kafka-Starts_example =
    init_kafka-Starts env custom (codes "localhost:9092") (codes "tests") none running_producer
      running_trace (pos 100)

Reach-dr_cb_example :
    let (b, p, tr) =
      init_kafka env custom
        (codes "localhost:9092")
        (codes "tests")
        none
        (pos 100)
        (construct 0 []).0
        (construct 0 []).1 in
    (h : ℕ) × (p.producer_callback.send_callback ≡ some h)
    × (alive h tr ≡ true)
    × (((small_message.status ≡ not_persisted)
          × (dr_cb p.producer_callback small_message ≡ ok (fail h small_message)))
        ⊎ ((small_message.status ≢ not_persisted)
            × (dr_cb p.producer_callback small_message ≡ ok (success h small_message))))
Reach-dr_cb_example =
    Reach-dr_cb small_message (
      initialised custom (codes "localhost:9092") (codes "tests") none (pos 100) tt (constructed 0))
