-- ===== src/Callback/Events.antt =====
-- `class ProducerEventCallback` (ProducerEventCallback.h and .cpp): what is written to stderr for
-- an event of the library.
pub mod Fatal
use kafka_client.Base.{ℕ, [], ◌∷◌, ◌++◌, if◌then◌else◌}
use kafka_client.Base.Text.{Text, codes, c_string}
use kafka_client.Base.Decimal.{show_nat}
use kafka_client.Kafka.{
  ErrorCode, Event, EventType, event_error, event_stats, event_log, event_throttle, Severity, emerg,
  alert, critical, error, warning, notice, info, debug,
}

-- The numbers of the enumerators.
abbrev pub type_number : EventType → ℕ
type_number event_error = 0
type_number event_stats = 1
type_number event_log = 2
type_number event_throttle = 3

abbrev pub severity_number : Severity → ℕ
severity_number emerg = 0
severity_number alert = 1
severity_number critical = 2
severity_number error = 3
severity_number warning = 4
severity_number notice = 5
severity_number info = 6
severity_number debug = 7

-- `RdKafka::err2str` is the library's.
module _ (err2str : ErrorCode → Text) where
  unfoldable pub event_cb : Event → Text
  event_cb e = elim e.type [
    | event_error ↦
        (if e.fatal then codes "FATAL " else [])
        ++ codes "ERROR ("
        ++ err2str e.err
        ++ codes "): "
        ++ e.str
        ++ (10 ∷ [])
    | event_stats ↦ b'"' ∷ codes "STATS" ++ (b'"' ∷ codes ": ") ++ e.str ++ (10 ∷ [])
    | event_log ↦
        codes "LOG-"
        ++ show_nat (severity_number e.severity)
        ++ codes "-"
        ++ c_string e.fac
        ++ codes ": "
        ++ c_string e.str
        ++ (10 ∷ [])
    | event_throttle ↦
        codes "EVENT "
        ++ show_nat (type_number e.type)
        ++ codes " ("
        ++ err2str e.err
        ++ codes "): "
        ++ e.str
        ++ (10 ∷ [])
  ]
