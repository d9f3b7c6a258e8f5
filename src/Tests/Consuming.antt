-- ===== src/Tests/Consuming.antt =====
-- The consumer: `consume` on messages of each kind, `initKafka` and `closeKafka`.
use kafka_client.Base.{
  ℕ, ◌≡◌, refl, ◌≢◌, ◌⊎◌, inr, true, false, none, some, [], ◌∷◌, arith, List, ◌↔◌,
}
use mathlib.Core.Quot.{Quot}
use kafka_client.Base.Int.{pos}
use kafka_client.Base.Text.{Text, codes, c_string}
use kafka_client.Base.Map.{lookup, IsAscending}
use kafka_client.Kafka.{Env, ok, fault, null_pointer, alive, Trace, Header, make_header, subscribe}
use kafka_client.Consumer.Lifecycle.Start.{Subscribes, init_kafka-Subscribes, created_calls}
use kafka_client.Consumer.Receive.Abstract.{HeaderValues, received_headers-HeaderValues}
use kafka_client.Consumer.Receive.Cases.{Consumed, consume_message_lem}
use kafka_client.Consumer.State.{construct}
use kafka_client.Consumer.Body.{copy_body}
use kafka_client.Consumer.Body.Copied.{copy_body_lem, Copies}
use kafka_client.Consumer.Receive.{received_headers, consume_message}
use kafka_client.Consumer.Receive.Outcome.{last_value, received_headers-lookup, Readable}
use kafka_client.Consumer.Lifecycle.{init_kafka, close_kafka}
use kafka_client.Consumer.Lifecycle.Outcome.{
  Owns, emptied, close_kafka-init_kafka_failed, close_kafka_lem,
}
use kafka_client.Tests.{
  no_error, message_of, three_headers, small_message, env_giving, env, refusing, custom,
  consumer_trace, running_consumer, consumer-Owns, nothing_received,
}

-- The length alone is large.
abbrev large : Env
large = env_giving (message_of no_error (some (codes "k1")) (some (codes "body")) 2000000 none)

small_message-Readable : Readable small_message (codes "k1") (codes "body")
unfolding c_string
small_message-Readable = (refl, refl, refl, omega arith, omega arith)

received_headers-lookup_example :
    IsAscending (received_headers (some three_headers))
    × ((k : Text) → lookup k (received_headers (some three_headers)) ≡ last_value k three_headers)
received_headers-lookup_example = received_headers-lookup three_headers

-- A body in a buffer of five bytes, with a length that the conversion to `int` makes 4.
copy_body_lem_example :
    Copies 5 4 (codes "body") (copy_body 5 (some (codes "body")) 4294967300)
    × (copy_body 5 none 4294967300 ≡ fault null_pointer)
copy_body_lem_example = copy_body_lem 5 4294967300 (codes "body") (omega arith)

close_kafka-init_kafka_failed_example :
    let (b, c, tr) =
      init_kafka refusing custom
        (codes "localhost:9092")
        (codes "jobs" ∷ [])
        (codes "group")
        (pos 1000)
        (construct (pos 0))
        [] in
    (b ≡ false) × (close_kafka c tr ≡ fault null_pointer)
unfolding construct
close_kafka-init_kafka_failed_example =
    close_kafka-init_kafka_failed refusing custom (codes "localhost:9092") (codes "jobs" ∷ [])
      (codes "group") (pos 1000) (construct (pos 0)) [] refl (inr refl)

close_kafka_lem_example :
    ((running_consumer.consumer ≡ none)
      × (running_consumer.global_conf ≡ none)
      × (close_kafka running_consumer consumer_trace ≡ ok (running_consumer, consumer_trace)))
    ⊎ ((running_consumer.consumer ≡ none)
        × (running_consumer.global_conf ≢ none)
        × (close_kafka running_consumer consumer_trace ≡ fault null_pointer))
    ⊎ ((h : ℕ) × (running_consumer.consumer ≡ some h)
        × (tr' : Trace) × (close_kafka running_consumer consumer_trace
            ≡ ok (emptied running_consumer, tr'))
        × Owns (emptied running_consumer) tr'
        × (alive h tr' ≡ false)
        × ((j : ℕ) → running_consumer.global_conf ≡ some j → alive j tr' ≡ false)
        × (close_kafka (emptied running_consumer) tr' ≡ ok (emptied running_consumer, tr')))
close_kafka_lem_example = close_kafka_lem running_consumer consumer_trace consumer-Owns

-- A message whose length alone is too large.
consume_message_lem_example :
    ((running_consumer.consumer ≡ none)
      × (consume_message large running_consumer nothing_received consumer_trace
          ≡ fault null_pointer))
    ⊎ ((h : ℕ) × (running_consumer.consumer ≡ some h)
        × Consumed large running_consumer nothing_received consumer_trace h)
consume_message_lem_example =
    consume_message_lem large running_consumer nothing_received consumer_trace

-- The header without a value may be left out, and the last of a key counts.
abbrev last_header : List Header
last_header = make_header (codes "a") (some (codes "2")) ∷ []

received_headers-HeaderValues_example :
    (received_headers (some three_headers) ≡ received_headers (some last_header))
    ↔ (◌≡◌ {A = HeaderValues} (Quot.mk three_headers) (Quot.mk last_header))
received_headers-HeaderValues_example = received_headers-HeaderValues three_headers last_header

init_kafka-Subscribes_example :
    let result =
      init_kafka env custom
        (codes "localhost:9092")
        (codes "jobs" ∷ [])
        (codes "group")
        (pos 1000)
        (construct (pos 0))
        [] in
    (Subscribes env custom (codes "localhost:9092") (codes "jobs" ∷ []) (codes "group") []
      × (result ≡ (
        true,
        record (construct (pos 0)) {
          brokers = codes "localhost:9092";
          consumer_id = codes "group";
          poll_period = pos 1000;
          global_conf = some 1;
          consumer = some 6;
        },
        subscribe 6 (codes "jobs" ∷ []) no_error
            ∷ created_calls env custom
                (codes "localhost:9092")
                (codes "jobs" ∷ [])
                (codes "group")
                [],
      )))
    ⊎ (¬ Subscribes env custom (codes "localhost:9092") (codes "jobs" ∷ []) (codes "group") []
        × (result.0 ≡ false))
init_kafka-Subscribes_example =
    init_kafka-Subscribes env custom (codes "localhost:9092") (codes "jobs" ∷ []) (codes "group") []
      (pos 1000) (construct (pos 0))
