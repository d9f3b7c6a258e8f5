-- ===== src/Tests/Clock.antt =====
-- Message ids and the texts of the clock.
use kafka_client.Base.{◌≡◌, refl, ◌⊎◌, true, false, arith, bit_and, leb, get_or}
use kafka_client.Kafka.{TimeVal}
use kafka_client.Producer.Clock.{Tm}
use kafka_client.Producer.Clock.Widths.{IsCalendar}
use kafka_client.Producer.Uuid.{get_random_uuid}
use kafka_client.Producer.Uuid.Shape.{
  is_rfc_variant, get_random_uuid-repeats, variant_draw, get_random_uuid_variant,
}
use kafka_client.Tests.{noon, env}

-- 2^32 microseconds after `noon`.
abbrev again : TimeVal
again = record { sec = 1600004295; usec = 217296 }

get_random_uuid-repeats_example : get_random_uuid env again ≡ get_random_uuid env noon
get_random_uuid-repeats_example = get_random_uuid-repeats env noon again 1 refl

get_random_uuid_variant_example :
    let c = get_or (get_random_uuid env noon) 19 0 in
    ((bit_and (variant_draw env noon) 8 ≡ 8) × (is_rfc_variant c ≡ true))
    ⊎ ((bit_and (variant_draw env noon) 8 ≡ 0) × (is_rfc_variant c ≡ false) × (leb c b'3' ≡ true))
get_random_uuid_variant_example = get_random_uuid_variant env noon

-- 2020-09-13 12:26:40.
abbrev calendar : Tm
calendar = record {
  tm_year = 120;
  tm_mon = 8;
  tm_mday = 13;
  tm_hour = 12;
  tm_min = 26;
  tm_sec = 40;
}

calendar-IsCalendar : IsCalendar calendar
calendar-IsCalendar = record {
  year = omega arith;
  mon = omega arith;
  mday = omega arith;
  hour = omega arith;
  min = omega arith;
  sec = omega arith;
}
