-- ===== src/Callback/DefaultSend.antt =====
-- `class ProducerDefaultSendCallback` (ProducerDefaultSendCallback.h and .cpp): what the default
-- receiver of delivery reports writes to stderr.
use kafka_client.Base.{Option, none, some, List, [], ◌∷◌, ◌++◌}
use kafka_client.Base.Text.{Text, codes, c_string}
use kafka_client.Kafka.{Result, ok, fault, null_pointer, ◌>>=◌, Message, Header}

abbrev pub headers_message_id : Text
headers_message_id = codes "x-message-id"

abbrev pub newline : Text
newline = 10 ∷ []

-- `fprintf(stderr, before "%s" after, p)` of a pointer to a C string.
abbrev print_string : Text → Option Text → Text → Result Text
print_string before none after = fault null_pointer
print_string before (some s) after = ok (before ++ c_string s ++ after)

abbrev message_headers : Message → Result (List Header)
message_headers m = elim m.headers [ none ↦ fault null_pointer | some hs ↦ ok hs ]

-- The second part of `success`: the key, where the message has one.
abbrev key_line : Option Text → Text
key_line none = []
key_line (some k) = codes "message key : " ++ c_string k ++ newline

success_lines : Message → List Header → Result Text
success_lines m [] = ok []
success_lines m (h ∷ hs) = do
  id_line ← print_string (codes "message id : ") h.value newline
  ok (
      codes "===========================[ Kafka Produce Success ]=========================== "
      ++ newline
      ++ id_line
      ++ key_line m.key)

fail_lines : List Header → Result Text
fail_lines [] = ok []
fail_lines (h ∷ hs) = do
  id_line ← print_string (codes "message id : ") h.value newline
  ok (
      codes "===========================[ Kafka Produce Fail ]=========================== "
      ++ newline
      ++ id_line)

-- `Headers::get`, all headers of a key, is the library's.
module _ (get : Text → List Header → List Header) where
  unfoldable pub success : Message → Result Text
  unfolding success_lines
  success m = do hs ← message_headers m; success_lines m (get headers_message_id hs)

  unfoldable pub fail : Message → Result Text
  unfolding fail_lines
  fail m = do hs ← message_headers m; fail_lines (get headers_message_id hs)
