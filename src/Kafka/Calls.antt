-- ===== src/Kafka/Calls.antt =====
-- The calls that leave the client, each with its answer, and the environment that answers them.
use kafka_client.Base.{ℕ, suc, Bool, Option, List, length, ◌≡◌, refl}
use kafka_client.Base.Int.{ℤ}
use kafka_client.Base.Text.{Text}
use kafka_client.Kafka.Errors.{ErrorCode}
use kafka_client.Kafka.Types.{ConfResult, Message}

-- `struct timeval`
pub record TimeVal : Type 0 where
  pub sec : ℕ
  pub usec : ℕ

-- The arguments of `Producer::produce`: topic, partition, payload and key with their sizes, the
-- handle of the headers object and the headers in it.
pub record Produced : Type 0 where
  pub topic : Text
  pub partition : ℤ
  pub payload : Text
  pub key : Text
  pub timestamp : ℕ
  pub headers : ℕ
  pub header_list : List (Text × Text)

-- One call out of the client with its answer. Objects of the library are numbers, their handles.
pub data Call : Type 0 where
  new_send_callback delete_send_callback : ℕ → Call
  conf_create delete_conf : ℕ → Call
  conf_set : ℕ → Text → Text → ConfResult → Call
  conf_set_event_cb conf_set_dr_cb : ℕ → ConfResult → Call
  producer_create : ℕ → Option ℕ → Call
  poll : ℕ → ℤ → Call
  outq_len : ℕ → ℕ → Call
  produce : ℕ → Produced → ErrorCode → Call
  delete_producer : ℕ → Call
  headers_create delete_headers : ℕ → Call
  headers_add : ℕ → Text → Text → ErrorCode → Call
  thread_create : ℤ → ℕ → Call
  thread_join : ℕ → Call
  consumer_create : ℕ → Option ℕ → Call
  subscribe : ℕ → List Text → ErrorCode → Call
  consume : ℕ → ℤ → ℕ → Message → Call
  delete_message : ℕ → Call
  consumer_close delete_consumer : ℕ → Call
  wait_destroyed : ℤ → Call

-- The calls so far, the latest first.
abbrev pub Trace : Type 0
Trace = List Call

-- The handle that the next object gets: not 0, and no earlier object's.
abbrev pub fresh : Trace → ℕ
fresh tr = suc (length tr)

-- librdkafka, the clock and the C library: every answer may depend on all calls before it.
pub record Env : Type 0 where
  pub conf_set : Trace → Text → Text → ConfResult
  pub conf_set_event_cb : Trace → ConfResult
  pub conf_set_dr_cb : Trace → ConfResult
  -- whether `Producer::create` and `KafkaConsumer::create` give an object
  pub creates_producer : Trace → Bool
  pub creates_consumer : Trace → Bool
  pub outq_len : Trace → ℕ
  pub produce : Trace → Produced → ErrorCode
  pub headers_add : Trace → Text → Text → ErrorCode
  -- the result of `pthread_create`, and what it leaves in the thread's id when it fails
  pub thread_create : Trace → ℤ
  pub thread_junk : Trace → ℕ
  pub subscribe : Trace → List Text → ErrorCode
  pub consume : Trace → ℤ → Message
  -- the clock, read for the `n`-th time, from 0, since the last of the calls
  pub gettimeofday : Trace → ℕ → TimeVal
  -- `rand_r`: from the seed to the number drawn and the next seed
  pub rand_r : ℕ → ℕ × ℕ

-- Undefined behaviour that the code can run into.
pub data Fault : Type 0 where
  null_pointer buffer_overflow unterminated : Fault

-- How a piece of code ends; `running` is a loop that has used up its fuel.
pub data Result (A : Type 0) : Type 0 where
  ok : A → Result A
  fault : Fault → Result A
  running : Result A

infixl 5 ◌>>=◌ ◌>>◌
abbrev pub ◌>>=◌ : {X Y : Type 0} → Result X → (X → Result Y) → Result Y
running >>= next = running
fault why >>= next = fault why
ok value >>= next = next value

abbrev pub ◌>>◌ : {X Y : Type 0} → Result X → Result Y → Result Y
first >> second = first >>= λ _. second

pub ok-injective : {X : Type 0} {x y : X} → ok x ≡ ok y → x ≡ y
ok-injective same = cc

pub fault-ok : {X : Type 0} {why : Fault} {x : X} → ◌≡◌ {A = Result X} (fault why) (ok x) → ⊥
fault-ok same = cc

-- Of a chain that comes to an end, both parts do.
pub >>=-eq-ok :
    {X Y : Type 0} (first : Result X) (next : X → Result Y) {y : Y}
    → (first >>= next) ≡ ok y
    → (x : X) × (first ≡ ok x) × (next x ≡ ok y)
>>=-eq-ok running next ends = absurd (cc)
>>=-eq-ok (fault why) next ends = absurd (cc)
>>=-eq-ok (ok value) next ends = (value, refl, ends)
