-- ===== src/Callback/Delivery/Owned.antt =====
-- Registering a callback object, seen from the producer that owns it.
use kafka_client.Base.{ℕ, ◌≡◌, refl, ◌∙◌, sym, Option, none, some, ◌∷◌, true}
use kafka_client.Kafka.{Trace, delete_send_callback, created, destroyed, needed, alive}
use kafka_client.Ownership.{Holds, Apart, Apart-sym}
use kafka_client.Ownership.Destroyed.{Live-destroyed, numbered-destroyed, alive-destroyed}
use kafka_client.Callback.Delivery.{ProducerCallback, set_send_callback}

-- An object that may be registered: it exists, and it is none of those that are owned.
abbrev pub Registrable : Option ℕ → Option ℕ → Option ℕ → Option ℕ → Trace → Type 0
Registrable none o c s tr = Unit
Registrable (some n) o c s tr =
    (alive n tr ≡ true) × Apart o (some n) × Apart c (some n) × Apart s (some n)

Holds-registered :
    (n : ℕ) (o c s : Option ℕ) (tr : Trace)
    → Registrable (some n) o c s tr
    → Holds o c s tr
    → Holds o c (some n) (elim s [ some h ↦ delete_send_callback h ∷ tr | none ↦ tr ])
unfolding created destroyed needed
Holds-registered n o c none tr (live, apart_o, apart_c, apart_s) held = record {
  safe = held.safe;
  numbered = held.numbered;
  live_o = held.live_o;
  live_c = held.live_c;
  live_s = live;
  apart_oc = held.apart_oc;
  apart_os = apart_o;
  apart_cs = apart_c;
}
Holds-registered n o c (some h) tr (live, apart_o, apart_c, apart_s) held = record {
  safe = ((held.live_s, tt), held.safe);
  numbered = numbered-destroyed _ h tr refl refl held.numbered;
  live_o = Live-destroyed _ h tr refl refl o (Apart-sym o (some h) held.apart_os) held.live_o;
  live_c = Live-destroyed _ h tr refl refl c (Apart-sym c (some h) held.apart_cs) held.live_c;
  live_s = alive-destroyed _ h tr refl refl n (λ e. apart_s (sym e)) ∙ live;
  apart_oc = held.apart_oc;
  apart_os = apart_o;
  apart_cs = apart_c;
}

pub set_send_callback-Holds :
    (n : ℕ) (o c : Option ℕ) (k : ProducerCallback) (tr : Trace)
    → Registrable (some n) o c k.send_callback tr
    → Holds o c k.send_callback tr
    → let (k', tr') = set_send_callback (some n) k tr in Holds o c k'.send_callback tr'
unfolding set_send_callback
set_send_callback-Holds n o c k tr new held = Holds-registered n o c k.send_callback tr new held
