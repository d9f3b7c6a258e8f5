-- ===== src/Config/Owned.antt =====
-- Setting properties creates and destroys nothing.
use kafka_client.Base.{ℕ, refl, Bool, Option, some, [], ◌∷◌, if-elim}
use kafka_client.Base.Text.{Text}
use kafka_client.Base.Map.{Map}
use kafka_client.Kafka.{Env, Trace, created, destroyed, needed}
use kafka_client.Config.{set_property, set_all}
use kafka_client.Ownership.{Holds, Holds-neutral}

module _ (env : Env) (conf : ℕ) where
  pub set_property-Holds :
      {o s : Option ℕ} (k v : Text) (tr : Trace)
      → Holds o (some conf) s tr
      → Holds o (some conf) s (set_property env conf k v tr).1
  unfolding created destroyed needed
  set_property-Holds k v tr held = Holds-neutral _ tr refl refl (held.live_c, tt) held

  pub set_all-Holds :
      {o s : Option ℕ} (m : Map) (tr : Trace)
      → Holds o (some conf) s tr
      → Holds o (some conf) s (set_all env conf m tr).1
  unfolding set_all
  set_all-Holds {o} {s} [] tr held = held
  set_all-Holds {o} {s} ((k, v) ∷ m) tr held =
      if-elim {A = Bool × Trace} (λ r. Holds o (some conf) s r.1) (set_property env conf k v tr).0
        (set_all-Holds m _ (set_property-Holds k v tr held)) (set_property-Holds k v tr held)
