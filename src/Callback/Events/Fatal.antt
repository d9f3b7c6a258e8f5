-- ===== src/Callback/Events/Fatal.antt =====
-- How a fatal error is told from the other events.
use kafka_client.Base.{◌≡◌, refl, ◌↔◌, Bool, true, false, ◌&&◌, [], ◌∷◌, ◌==◌}
use kafka_client.Base.Text.{Text, codes}
use kafka_client.Kafka.{
  ErrorCode, Event, EventType, event_error, event_stats, event_log, event_throttle,
}
use kafka_client.Callback.Events.{event_cb}

-- Whether the second text begins with the first.
abbrev pub begins_with : Text → Text → Bool
begins_with [] u = true
begins_with (c ∷ t) [] = false
begins_with (c ∷ t) (d ∷ u) = c == d && begins_with t u

module _ (err2str : ErrorCode → Text) where
  by_type :
      (e : Event) (t : EventType) (f : Bool)
      → e.type ≡ t
      → e.fatal ≡ f
      → (begins_with (codes "FATAL ") (event_cb err2str e) ≡ true)
        ↔ ((e.type ≡ event_error) × (e.fatal ≡ true))
  unfolding event_cb
  by_type e event_error true p q = rw (p, q) (λ h. (refl, refl), λ h. refl)
  by_type e event_error false p q = rw (p, q) (λ h. cc, λ h. cc)
  by_type e event_stats f p q = rw p (λ h. cc, λ h. cc)
  by_type e event_log f p q = rw p (λ h. cc, λ h. cc)
  by_type e event_throttle f p q = rw p (λ h. cc, λ h. cc)

  -- What is written for an event begins with `FATAL ` exactly for an error that is fatal, whatever
  -- the texts of the library are.
  pub event_cb_fatal :
      (e : Event)
      → (begins_with (codes "FATAL ") (event_cb err2str e) ≡ true)
        ↔ ((e.type ≡ event_error) × (e.fatal ≡ true))
  event_cb_fatal e = by_type e e.type e.fatal refl refl
