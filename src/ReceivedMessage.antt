-- ===== src/ReceivedMessage.antt =====
-- `class ReceivedMessage` (KafkaMessage.h, KafkaMessage.cpp): a message that was consumed.
use kafka_client.Base.Text.{Text}
use kafka_client.Base.Map.{Map}

pub record ReceivedMessage : Type 0 where
  pub key : Text
  pub headers : Map
  pub body : Text

unfoldable pub get_key : ReceivedMessage → Text
get_key m = m.key

unfoldable pub set_key : Text → ReceivedMessage → ReceivedMessage
set_key v m = record m { key = v }

unfoldable pub get_headers : ReceivedMessage → Map
get_headers m = m.headers

unfoldable pub set_headers : Map → ReceivedMessage → ReceivedMessage
set_headers v m = record m { headers = v }

unfoldable pub get_body : ReceivedMessage → Text
get_body m = m.body

unfoldable pub set_body : Text → ReceivedMessage → ReceivedMessage
set_body v m = record m { body = v }
