-- ===== src/RoundTrip/Reported.antt =====
-- What the default callback reports of a message that was sent.
use kafka_client.Producer.Send.Outcome.{handed, Hands, prepared}
use kafka_client.Base.{◌≡◌, refl, some, List, [], ◌∷◌, ◌++◌, ℕ}
use kafka_client.Base.Text.{Text, codes, c_string, text_eq, c_string-eq_self}
use kafka_client.Kafka.{Env, Trace, TimeVal, fresh, Message, Header, make_header, ok}
use kafka_client.KafkaMessage.{KafkaMessage}
use kafka_client.Callback.DefaultSend.{headers_message_id, newline, success, fail}
use kafka_client.Producer.State.{KafkaProducer}
use kafka_client.Producer.Uuid.{get_random_uuid}
use kafka_client.Producer.Uuid.Shape.{get_random_uuid-fits}
use kafka_client.Producer.Headers.Written.{header_list}
use kafka_client.Producer.Send.{send}
use kafka_client.RoundTrip.{headers_of, headers_of_key, Reports}
use kafka_client.RoundTrip.Received.{IsPlain, asked, sent_headers, IsSendable, sends-Hands}

abbrev pub success_text : Text → Text → Text
success_text id key =
    codes "===========================[ Kafka Produce Success ]=========================== "
    ++ newline
    ++ (codes "message id : " ++ id ++ newline)
    ++ (codes "message key : " ++ key ++ newline)

abbrev pub fail_text : Text → Text
fail_text id =
    codes "===========================[ Kafka Produce Fail ]=========================== "
    ++ newline
    ++ codes "message id : "
    ++ id
    ++ newline

ids_of :
    (id : Text) (t : TimeVal) (m : KafkaMessage) (agent : Text)
    → headers_of_key headers_message_id (headers_of (header_list id t m agent))
      ≡ make_header headers_message_id (some id) ∷ []
unfolding text_eq
ids_of id t m agent = refl

module _ (get : Text → List Header → List Header)
    (get_all : (k : Text) (hs : List Header) → get k hs ≡ headers_of_key k hs) where
  -- If `Headers::get` gives all headers of a key: a message of plain texts that the library lets be
  -- sent, with a version from -999 to 9999 and every header accepted, is handed to the producer in
  -- one call of `produce`; and when the report of its delivery or its failure has the key and the
  -- headers of that call, the default callback writes the id that `send` gave the message, on
  -- success with its key and on failure without.
  pub success-send :
      (env : Env) (p : KafkaProducer) (m : KafkaMessage) (tr : Trace) (d : Message) (h : ℕ)
      → IsSendable env p m tr h
      → IsPlain m p.user_agent
      → Reports (handed p m (fresh tr) (sent_headers env p m tr)) d
      → let id = get_random_uuid env (env.gettimeofday (asked env p m tr) 1) in
        Hands env h
          (handed p m (fresh tr) (sent_headers env p m tr))
          (prepared env p m tr).1
          (send env p m tr)
        × (success get d ≡ ok (success_text id m.key))
        × (fail get d ≡ ok (fail_text id))
  unfolding success fail
  success-send env p m tr d h sendable plain delivered = (
    sends-Hands env p m tr h sendable,
    rw
        (
          delivered.headers,
          delivered.key,
          get_all,
          ids,
          printed_id,
          c_string-eq_self m.key plain.key,
        )
        refl,
    rw (delivered.headers, get_all, ids, printed_id) refl,
  )
    where
      id : Text
      id = get_random_uuid env (env.gettimeofday (asked env p m tr) 1)

      printed_id : c_string id ≡ id
      printed_id =
          c_string-eq_self id (get_random_uuid-fits env (env.gettimeofday (asked env p m tr) 1)).2

      ids :
          headers_of_key headers_message_id (headers_of (sent_headers env p m tr))
          ≡ make_header headers_message_id (some id) ∷ []
      ids = ids_of id (env.gettimeofday (asked env p m tr) 0) m p.user_agent
