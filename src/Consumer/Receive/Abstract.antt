-- ===== src/Consumer/Receive/Abstract.antt =====
-- What a consumer sees of the headers of a message: neither their order, nor a header that a later
-- one of its key replaces, nor one without a value.
use kafka_client.Base.{◌≡◌, sym, ◌∙◌, ap, ◌↔◌, some, List}
use mathlib.Core.Quot
use mathlib.Core.Quot.{Quot, Quot-set}
use native.Mathlib.Nat.{ℕ_set}
use kafka_client.Base.Text.{Text}
use kafka_client.Base.Map.{Map, lookup}
use kafka_client.Base.Map.Extensional.{Map-ext}
use kafka_client.Kafka.{Header}
use kafka_client.Consumer.Receive.{received_headers}
use kafka_client.Consumer.Receive.Outcome.{last_value, received_headers-lookup}

-- Two lists have the same last value at every key.
abbrev pub SameValues : List Header → List Header → Type 0
SameValues hs hs' = (k : Text) → last_value k hs ≡ last_value k hs'

-- The headers of a message, as far as a consumer can tell.
abbrev pub HeaderValues : Type 0
HeaderValues = Quot SameValues

Map-set : IsSet Map
Map-set = hlevel ℕ_set

received_headers-SameValues :
    (hs hs' : List Header)
    → SameValues hs hs'
    → received_headers (some hs) ≡ received_headers (some hs')
received_headers-SameValues hs hs' same =
    Map-ext (received_headers (some hs)) (received_headers (some hs'))
      (received_headers-lookup hs).0 (received_headers-lookup hs').0
      (λ k. (received_headers-lookup hs).1 k ∙ same k ∙ sym ((received_headers-lookup hs').1 k))

-- The map that `consume` stores, as a function of these values.
pub map_of : HeaderValues → Map
map_of = Quot.lift Map-set (λ hs. received_headers (some hs)) received_headers-SameValues

-- Two lists of headers are stored by `consume` as the same map exactly if they are equal up to order,
-- repetition and missing values: if they have the same last value at every key.
pub received_headers-HeaderValues :
    (hs hs' : List Header)
    → (received_headers (some hs) ≡ received_headers (some hs'))
      ↔ (◌≡◌ {A = HeaderValues} (Quot.mk hs) (Quot.mk hs'))
unfolding map_of
received_headers-HeaderValues hs hs' = (
  λ e. Quot.sound (λ k.
      sym ((received_headers-lookup hs).1 k) ∙ ap (lookup k) e ∙ (received_headers-lookup hs').1 k),
  λ e. ap map_of e,
)
