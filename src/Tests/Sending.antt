-- ===== src/Tests/Sending.antt =====
-- One message through `send`, and on to `consume` and to the default callback.
use kafka_client.Base.{◌^◌, ◌<◌, ◌≡◌, refl, ◌⊎◌, true, false, none, some, List, [], ◌∷◌, arith, ℕ}
use kafka_client.Base.Int.{pos}
use kafka_client.Base.Text.{Text, codes, c_string, c_string-IsCString}
use kafka_client.Kafka.{
  Trace, Message, delete_message, ok, fault, null_pointer, buffer_overflow, ErrorCode, LocalError,
  Produced,
}
use kafka_client.ReceivedMessage.{ReceivedMessage}
use kafka_client.Callback.DefaultSend.{success, fail}
use kafka_client.Producer.Clock.{milliseconds}
use kafka_client.Producer.Uuid.{get_random_uuid}
use kafka_client.Producer.Headers.{create_kafka_header}
use kafka_client.Producer.Headers.Written.{Fits5, header_list, all_added, create_kafka_header_lem}
use kafka_client.Producer.Send.{produce_with, send}
use kafka_client.Producer.Send.Outcome.{prepared, send_lem, handed, Hands}
use kafka_client.Consumer.Receive.{consume_message, next_message}
use kafka_client.RoundTrip.{headers_of, Delivers, headers_of_key}
use kafka_client.RoundTrip.Received.{
  IsPlain, HasHeaders, sent_headers, IsSendable, sends, send-consume,
}
use kafka_client.RoundTrip.Reported.{success_text, fail_text, success-send}
use kafka_client.Tests.{
  noon, no_error, message_of, env_giving, env, refusing, running_trace, running_producer, message,
  consumer_trace, running_consumer, nothing_received,
}

abbrev headers : List (Text × Text)
headers = sent_headers env running_producer message running_trace

abbrev id : Text
id = get_random_uuid env noon

-- The message of the call of `produce`, as the library gives it to a consumer.
abbrev delivered : Message
delivered =
    message_of no_error (some (codes "k1")) (some (codes "body")) 4 (some (headers_of headers))

message-IsPlain : IsPlain message (codes "tests")
unfolding c_string
message-IsPlain = record {
  key = c_string-IsCString (codes "k1");
  command = c_string-IsCString (codes "start");
  content_type = c_string-IsCString (codes "text/plain");
  contents = c_string-IsCString (codes "body");
  user_agent = c_string-IsCString (codes "tests");
  small = omega arith;
}

noon_small : milliseconds noon < 2 ^ 63
noon_small = omega arith

message-IsSendable : IsSendable env running_producer message running_trace 3
message-IsSendable = record {
  producer = refl;
  clock = noon_small;
  version = omega arith;
  added = (refl, (refl, (refl, (refl, (refl, (refl, tt))))));
}

abbrev handed_over : Produced
handed_over = handed running_producer message 4 headers

delivered-Delivers : Delivers handed_over delivered
delivered-Delivers = record { err = refl; key = refl; payload = refl; len = refl; headers = refl }

send-consume_example :
    Hands env 3 handed_over
      (prepared env running_producer message running_trace).1
      (send env running_producer message running_trace)
    × (r : ReceivedMessage) × (consume_message
          (env_giving delivered)
          running_consumer
          nothing_received
          consumer_trace
        ≡ ok (
          true,
          r,
          delete_message 3
              ∷ (next_message (env_giving delivered) running_consumer 2 consumer_trace).1,
        ))
    × (r.key ≡ codes "k1")
    × (r.body ≡ codes "body")
    × HasHeaders id noon message (codes "tests") r
send-consume_example =
    send-consume env running_producer message running_trace 3 2 (env_giving delivered)
      running_consumer nothing_received consumer_trace message-IsSendable message-IsPlain refl
      delivered-Delivers

send_lem_example :
    let (hs, tr) = prepared env running_producer message running_trace in
    (¬ Fits5 (pos 12) × (send env running_producer message running_trace ≡ fault buffer_overflow))
    ⊎ (Fits5 (pos 12)
        × (running_producer.producer ≡ none)
        × (send env running_producer message running_trace ≡ fault null_pointer))
    ⊎ (Fits5 (pos 12)
        × (h : ℕ) × (running_producer.producer ≡ some h)
        × Hands env h
            (handed running_producer message 4 hs)
            tr
            (send env running_producer message running_trace))
send_lem_example = send_lem env running_producer message running_trace noon_small

create_kafka_header_lem_example :
    let s = all_added env 4 (header_list id noon message (codes "tests")) ([], running_trace) in
    (Fits5 (pos 12)
      × (create_kafka_header env 4 message (codes "tests") running_trace ≡ ok (true, id, s.0, s.1)))
    ⊎ (¬ Fits5 (pos 12)
        × (create_kafka_header env 4 message (codes "tests") running_trace ≡ fault buffer_overflow))
create_kafka_header_lem_example =
    create_kafka_header_lem env 4 message (codes "tests") running_trace noon_small

-- The report of the message whose delivery has failed.
abbrev failed : Message
failed =
    message_of (ErrorCode.local LocalError.timed_out) (some (codes "k1")) (some (codes "body")) 4
      (some (headers_of headers))

success-send_example :
    Hands env 3 handed_over
      (prepared env running_producer message running_trace).1
      (send env running_producer message running_trace)
    × (success headers_of_key failed ≡ ok (success_text id (codes "k1")))
    × (fail headers_of_key failed ≡ ok (fail_text id))
success-send_example =
    success-send headers_of_key (λ k hs. refl) env running_producer message running_trace failed 3
      message-IsSendable message-IsPlain (record { key = refl; headers = refl })

-- The calls of a `send` that the library refuses.
refused_calls : Trace
refused_calls =
    (produce_with refusing message (codes "jobs") 4
      (sent_headers refusing running_producer message running_trace) 3
      (prepared refusing running_producer message running_trace).1).1

refused-IsSendable : IsSendable refusing running_producer message running_trace 3
refused-IsSendable = record {
  producer = refl;
  clock = noon_small;
  version = omega arith;
  added = (refl, (refl, (refl, (refl, (refl, (refl, tt))))));
}

refused_send : send refusing running_producer message running_trace ≡ ok (false, refused_calls)
unfolding refused_calls produce_with
refused_send = sends refusing running_producer message running_trace 3 refused-IsSendable
