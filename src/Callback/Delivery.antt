-- ===== src/Callback/Delivery.antt =====
-- `class ProducerCallback` (ProducerCallback.h, ProducerCallback.cpp): which object hears of a
-- delivery, and who owns it.
pub mod Ownership
pub mod Owned
use kafka_client.Base.{ℕ, Bool, true, false, Option, none, some, ◌∷◌, if◌then◌else◌}
use kafka_client.Kafka.{
  Trace, fresh, Result, ok, fault, null_pointer, new_send_callback, delete_send_callback, Message,
  Status, not_persisted, possibly_persisted, persisted,
}

pub record ProducerCallback : Type 0 where
  pub send_callback : Option ℕ
  pub is_default_callback : Bool

-- `ProducerCallback()`
unfoldable pub construct : Trace → ProducerCallback × Trace
construct tr = (
  record { send_callback = some (fresh tr); is_default_callback = true },
  new_send_callback (fresh tr) ∷ tr,
)

-- `~ProducerCallback()`
unfoldable pub destruct : ProducerCallback → Trace → ProducerCallback × Trace
destruct c tr =
    if c.is_default_callback
    then (
      record c { send_callback = none },
      elim c.send_callback [ some h ↦ delete_send_callback h ∷ tr | none ↦ tr ],
    )
    else (c, tr)

-- `setSendCallback`
unfoldable pub set_send_callback : Option ℕ → ProducerCallback → Trace → ProducerCallback × Trace
set_send_callback s c tr = (
  record { send_callback = s; is_default_callback = false },
  elim c.send_callback [ some h ↦ delete_send_callback h ∷ tr | none ↦ tr ],
)

-- A call `_sendCallback->success(message)` or `_sendCallback->fail(message)`.
pub data Report : Type 0 where
  success fail : ℕ → Message → Report

-- A virtual call through `_sendCallback`.
abbrev report_to : Option ℕ → (ℕ → Report) → Result Report
report_to none r = fault null_pointer
report_to (some h) r = ok (r h)

-- The switch on `message.status()`; no other enumerator is left for its `default`.
unfoldable pub dr_cb : ProducerCallback → Message → Result Report
dr_cb c m = elim m.status [
  | not_persisted ↦ report_to c.send_callback (λ h. fail h m)
  | possibly_persisted ↦ report_to c.send_callback (λ h. success h m)
  | persisted ↦ report_to c.send_callback (λ h. success h m)
]
