-- ===== src/Producer/Configure/Owned.antt =====
-- Configuring a producer keeps what it owns.
use kafka_client.Base.{ℕ, ◌≡◌, refl, Bool, Option, none, some, if-elim, ◌∙◌}
use kafka_client.Base.Text.{Text, c_string}
use kafka_client.Base.Map.{Map}
use kafka_client.Kafka.{Env, Trace, created, destroyed, needed, alive}
use kafka_client.Config.{set_property}
use kafka_client.Config.Owned.{set_property-Holds, set_all-Holds}
use kafka_client.Ownership.{Holds, Holds-neutral, alive-neutral}
use kafka_client.Callback.Delivery.{ProducerCallback}
use kafka_client.Callback.Delivery.Owned.{Registrable, set_send_callback-Holds}
use kafka_client.Producer.Configure.{
  bootstrap_servers, set_event_cb, set_dr_cb, register, set_producer_configuration,
  finish_configuration,
}

-- A neutral call leaves an object registrable.
Registrable-same :
    (n o c s : Option ℕ) (tr tr' : Trace)
    → ((h : ℕ) → alive h tr' ≡ alive h tr)
    → Registrable n o c s tr
    → Registrable n o c s tr'
Registrable-same none o c s tr tr' same new = tt
Registrable-same (some n) o c s tr tr' same (live, apart_o, apart_c, apart_s) =
    (same n ∙ live, apart_o, apart_c, apart_s)

module _ (env : Env) (conf : ℕ) where
  register-Holds :
      (callback o : Option ℕ) (k : ProducerCallback) (tr : Trace)
      → Registrable callback o (some conf) k.send_callback tr
      → Holds o (some conf) k.send_callback tr
      → let (k', tr') = register env conf callback k tr in Holds o (some conf) k'.send_callback tr'
  register-Holds none o k tr new held = held
  register-Holds (some n) o k tr new held = set_send_callback-Holds n o (some conf) k tr new held

  finish_configuration-Holds :
      {o : Option ℕ} (custom : Map) (k : ProducerCallback) (tr : Trace)
      → Holds o (some conf) k.send_callback tr
      → let (b, k', tr') = finish_configuration env conf custom k tr in
        Holds o (some conf) k'.send_callback tr'
  unfolding finish_configuration created destroyed needed
  finish_configuration-Holds {o} custom k tr held =
      if-elim {A = Bool × ProducerCallback × Trace}
        (λ r. Holds o (some conf) (r.1).send_callback r.2) (set_dr_cb env conf tr).0
        (set_all-Holds env conf custom _ kept) kept
    where
      kept : Holds o (some conf) k.send_callback (set_dr_cb env conf tr).1
      kept = Holds-neutral _ tr refl refl (held.live_c, tt) held

  pub set_producer_configuration-Holds :
      (brokers : Text) (custom : Map) (callback o : Option ℕ) (k : ProducerCallback) (tr : Trace)
      → Registrable callback o (some conf) k.send_callback tr
      → Holds o (some conf) k.send_callback tr
      → let (b, k', tr') = set_producer_configuration env conf brokers custom callback k tr in
        Holds o (some conf) k'.send_callback tr'
  unfolding set_producer_configuration created destroyed needed
  set_producer_configuration-Holds brokers custom callback o k tr new held =
      if-elim {A = Bool × ProducerCallback × Trace}
        (λ r. Holds o (some conf) (r.1).send_callback r.2) first.0
        (if-elim {A = Bool × ProducerCallback × Trace}
          (λ r. Holds o (some conf) (r.1).send_callback r.2) second.0
          (finish_configuration-Holds custom registered.0 registered.1 (
            register-Holds callback o k second.1
              (Registrable-same callback o (some conf) k.send_callback tr second.1 same new) kept₂))
          kept₂)
        kept₁
    where
      first : Bool × Trace
      first = set_property env conf bootstrap_servers (c_string brokers) tr

      second : Bool × Trace
      second = set_event_cb env conf first.1

      registered : ProducerCallback × Trace
      registered = register env conf callback k second.1

      kept₁ : Holds o (some conf) k.send_callback first.1
      kept₁ = set_property-Holds env conf _ _ tr held

      kept₂ : Holds o (some conf) k.send_callback second.1
      kept₂ = Holds-neutral _ first.1 refl refl (kept₁.live_c, tt) kept₁

      same : (h : ℕ) → alive h second.1 ≡ alive h tr
      same h = alive-neutral _ h first.1 refl refl ∙ alive-neutral _ h tr refl refl
