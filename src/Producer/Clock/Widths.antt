-- ===== src/Producer/Clock/Widths.antt =====
-- The buffers that the clock's texts are written to are large enough.
use kafka_client.Base.{◌+◌, ◌≡◌, ◌<◌, ◌^◌, arith, length, length-append}
use kafka_client.Base.Decimal.{show_nat, length-show_nat_le, length-show_padded}
use kafka_client.Kafka.{TimeVal}
use kafka_client.Producer.Clock.{Tm, get_now_time_string, milliseconds}

-- The ranges that `localtime` keeps, and a year before 10000.
pub record IsCalendar (t : Tm) : Type 0 where
  pub year : t.tm_year < 8100
  pub mon : t.tm_mon < 12
  pub mday : t.tm_mday < 32
  pub hour : t.tm_hour < 24
  pub min : t.tm_min < 60
  pub sec : t.tm_sec < 61

-- `getNowTimeString` writes 19 characters and a NUL, which fit its buffer of 30.
pub length-get_now_time_string : (t : Tm) → IsCalendar t → length (get_now_time_string t) ≡ 19
unfolding get_now_time_string
length-get_now_time_string t c = simp length-append (
    omega (
      arith,
      length-show_padded 3 (t.tm_year + 1900) (omega arith),
      length-show_padded 1 (t.tm_mon + 1) (omega arith),
      length-show_padded 1 t.tm_mday (omega arith),
      length-show_padded 1 t.tm_hour (omega arith),
      length-show_padded 1 t.tm_min (omega arith),
      length-show_padded 1 t.tm_sec (omega arith),
    ))

-- Up to the last millisecond that a `long long` holds, `%lld` writes at most 19 characters, which
-- fit `strTimestamp` with the NUL.
pub length-show-milliseconds :
    (t : TimeVal) → milliseconds t < 2 ^ 63 → length (show_nat (milliseconds t)) < 20
length-show-milliseconds t h = omega (arith, length-show_nat_le 18 (milliseconds t) (omega arith))
