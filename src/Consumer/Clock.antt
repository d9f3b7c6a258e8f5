-- ===== src/Consumer/Clock.antt =====
-- `KafkaConsumer::getNowTimeString`, for its log lines.
use kafka_client.Base.{◌+◌, ◌++◌, ◌≡◌, refl, ◌∙◌, ap, length}
use kafka_client.Base.Text.{Text, codes}
use kafka_client.Base.Decimal.{show_padded}
use kafka_client.Producer.Clock as ProducerClock
use kafka_client.Producer.Clock.{Tm}
use kafka_client.Producer.Clock.Widths.{IsCalendar, length-get_now_time_string}

unfoldable get_now_time_string : Tm → Text
get_now_time_string t =
    show_padded 4 (t.tm_year + 1900)
    ++ codes "-"
    ++ show_padded 2 (t.tm_mon + 1)
    ++ codes "-"
    ++ show_padded 2 t.tm_mday
    ++ codes " "
    ++ show_padded 2 t.tm_hour
    ++ codes ":"
    ++ show_padded 2 t.tm_min
    ++ codes ":"
    ++ show_padded 2 t.tm_sec

-- It is the text that a producer prints at that time, so that it fits its buffer, too.
get_now_time_string_lem : (t : Tm) → get_now_time_string t ≡ ProducerClock.get_now_time_string t
unfolding get_now_time_string ProducerClock.get_now_time_string
get_now_time_string_lem t = refl

length-get_now_time_string_consumer : (t : Tm) → IsCalendar t → length (get_now_time_string t) ≡ 19
length-get_now_time_string_consumer t c =
    ap length (get_now_time_string_lem t) ∙ length-get_now_time_string t c
