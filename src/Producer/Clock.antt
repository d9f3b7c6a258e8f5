-- ===== src/Producer/Clock.antt =====
-- The clock: `getNowTimeString` (the same in KafkaProducer.cpp and KafkaConsumer.cpp) and the
-- time in milliseconds that `_createKafkaHeader` takes.
pub mod Widths
use kafka_client.Base.{ℕ, ◌+◌, ◌*◌, ◌/◌, ◌++◌}
use kafka_client.Base.Text.{Text, codes}
use kafka_client.Base.Decimal.{show_padded}
use kafka_client.Kafka.{TimeVal}

-- `struct tm`, as `localtime` gives it: years since 1900, months from 0.
pub record Tm : Type 0 where
  pub tm_year : ℕ
  pub tm_mon : ℕ
  pub tm_mday : ℕ
  pub tm_hour : ℕ
  pub tm_min : ℕ
  pub tm_sec : ℕ

unfoldable pub get_now_time_string : Tm → Text
get_now_time_string t =
    show_padded 4 (t.tm_year + 1900)
    ++ codes "-"
    ++ show_padded 2 (t.tm_mon + 1)
    ++ codes "-"
    ++ show_padded 2 t.tm_mday
    ++ codes " "
    ++ show_padded 2 t.tm_hour
    ++ codes ":"
    ++ show_padded 2 t.tm_min
    ++ codes ":"
    ++ show_padded 2 t.tm_sec

-- `te.tv_sec * 1000LL + te.tv_usec/1000`
abbrev pub milliseconds : TimeVal → ℕ
milliseconds t = t.sec * 1000 + t.usec / 1000
