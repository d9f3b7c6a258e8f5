-- ===== src/Tests/Callbacks.antt =====
-- Delivery reports and events.
use kafka_client.Base.{◌≡◌, refl, ◌↔◌, ◌⊎◌, true, false, some, [], ◌∷◌}
use kafka_client.Base.Int.{pos}
use kafka_client.Base.Text.{codes}
use kafka_client.Kafka.{Trace, new_send_callback, ok, alive, Event, event_error, info}
use kafka_client.Callback.Delivery.{set_send_callback, success, fail, dr_cb}
use kafka_client.Callback.Delivery.Ownership.{set_send_callback_again}
use kafka_client.Callback.Events.{event_cb}
use kafka_client.Callback.Events.Fatal.{begins_with, event_cb_fatal}
use kafka_client.Tests.{no_error, small_message, callback}

abbrev two_callbacks : Trace
two_callbacks = new_send_callback 2 ∷ new_send_callback 1 ∷ []

set_send_callback_again_example :
    let (c, tr) = set_send_callback (some 1) callback two_callbacks in
    (c.send_callback ≡ some 1)
    × (alive 1 tr ≡ false)
    × ((dr_cb c small_message ≡ ok (success 1 small_message))
        ⊎ (dr_cb c small_message ≡ ok (fail 1 small_message)))
set_send_callback_again_example =
    set_send_callback_again callback two_callbacks 1 small_message refl

abbrev fatal_error : Event
fatal_error = record {
  type = event_error;
  err = no_error;
  severity = info;
  fac = [];
  str = codes "gone";
  throttle_time = pos 0;
  broker_name = [];
  broker_id = pos 0;
  fatal = true;
}

event_cb_fatal_example :
    (begins_with (codes "FATAL ") (event_cb (λ e. codes "text") fatal_error) ≡ true)
    ↔ ((fatal_error.type ≡ event_error) × (fatal_error.fatal ≡ true))
event_cb_fatal_example = event_cb_fatal (λ e. codes "text") fatal_error
