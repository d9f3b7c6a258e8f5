-- ===== src/Producer/Headers.antt =====
-- `_createKafkaHeader`
pub mod Written
use kafka_client.Base.{ℕ, Bool, true, List, [], ◌∷◌, ◌++◌, if◌then◌else◌, ltb, length}
use kafka_client.Base.Text.{Text, codes}
use kafka_client.Base.Decimal.{show_nat, show_int}
use kafka_client.Kafka.{
  Env, Trace, headers_add, is_no_error, Result, ok, fault, buffer_overflow, ◌>>=◌,
}
use kafka_client.KafkaMessage.{KafkaMessage, get_command, get_version, get_content_type}
use kafka_client.Producer.Clock.{milliseconds}
use kafka_client.Producer.Uuid.{get_random_uuid}

abbrev pub headers_message_id : Text
headers_message_id = codes "x-message-id"

abbrev pub headers_timestamp : Text
headers_timestamp = codes "x-timestamp"

abbrev pub headers_command : Text
headers_command = codes "x-command"

abbrev pub headers_message_version : Text
headers_message_version = codes "x-message-version"

abbrev pub headers_content_type : Text
headers_content_type = codes "x-content-type"

abbrev pub headers_user_agent : Text
headers_user_agent = codes "x-user-agent"

-- `char buffer[size]; sprintf(buffer, ...)`: the text and its NUL must fit.
unfoldable pub sprintf : ℕ → Text → Result Text
sprintf size t = if ltb (length t) size then ok t else fault buffer_overflow

module _ (env : Env) (object : ℕ) where
  -- `headers->add(k, v)`, whose answer nobody looks at: the header comes to the end of the list
  -- if the library takes it.
  unfoldable pub add : Text → Text → List (Text × Text) × Trace → List (Text × Text) × Trace
  add k v (hs, calls) =
      let e = env.headers_add calls k v in
      (if is_no_error e then hs ++ ((k, v) ∷ []) else hs, headers_add object k v e ∷ calls)

  -- The headers and the message's id, with the result, always `true`.
  unfoldable pub create_kafka_header :
      KafkaMessage → Text → Trace → Result (Bool × Text × List (Text × Text) × Trace)
  unfolding get_command get_version get_content_type
  create_kafka_header m agent tr = do
    let te = env.gettimeofday tr 0
    let message_id = get_random_uuid env (env.gettimeofday tr 1)
    let s₁ = add headers_message_id message_id ([], tr)
    str_timestamp ← sprintf 20 (show_nat (milliseconds te))
    let s₂ = add headers_timestamp str_timestamp s₁
    let s₃ = add headers_command (get_command m) s₂
    str_version ← sprintf 5 (show_int (get_version m))
    let s₄ = add headers_message_version str_version s₃
    let s₅ = add headers_content_type (get_content_type m) s₄
    let s₆ = add headers_user_agent agent s₅
    ok (true, message_id, s₆.0, s₆.1)
