-- ===== src/KafkaMessage.antt =====
-- `class KafkaMessage` (KafkaMessage.h, KafkaMessage.cpp): a message to send.
use kafka_client.Base.Text.{Text}
use kafka_client.Base.Int.{ℤ}

pub record KafkaMessage : Type 0 where
  pub key : Text
  pub command : Text
  pub version : ℤ
  pub content_type : Text
  pub contents : Text

unfoldable pub get_key : KafkaMessage → Text
get_key m = m.key

unfoldable pub set_key : Text → KafkaMessage → KafkaMessage
set_key v m = record m { key = v }

unfoldable pub get_command : KafkaMessage → Text
get_command m = m.command

unfoldable pub set_command : Text → KafkaMessage → KafkaMessage
set_command v m = record m { command = v }

unfoldable pub get_version : KafkaMessage → ℤ
get_version m = m.version

unfoldable pub set_version : ℤ → KafkaMessage → KafkaMessage
set_version v m = record m { version = v }

unfoldable pub get_content_type : KafkaMessage → Text
get_content_type m = m.content_type

unfoldable pub set_content_type : Text → KafkaMessage → KafkaMessage
set_content_type v m = record m { content_type = v }

unfoldable pub get_contents : KafkaMessage → Text
get_contents m = m.contents

unfoldable pub set_contents : Text → KafkaMessage → KafkaMessage
set_contents v m = record m { contents = v }
