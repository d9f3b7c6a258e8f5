-- ===== src/Producer/Session/Leaks.antt =====
-- The objects that a producer leaves behind.
use kafka_client.Base.{
  ℕ, ◌≡◌, refl, ◌∙◌, ap, inl, inr, Bool, true, false, Bool-cases, Option, none, some, List, ◌∷◌,
  if◌then◌else◌, ◌==◌, if-elim,
}
use mathlib.Core.Path.{subst}
use kafka_client.Base.Int.{ℤ, pos}
use kafka_client.Base.Text.{Text}
use kafka_client.Base.Map.{Map}
use kafka_client.Kafka.{
  Env, Trace, ok, IsSafe, alive, created, destroyed, needed, wait_destroyed, delete_send_callback,
}
use kafka_client.Ownership.{Holds, Live, alive-neutral, Holds-neutral, Apart-sym, Apart}
use kafka_client.Ownership.Destroyed.{Holds-deleted_other}
use kafka_client.Ownership.Frame.{alive-gone}
use kafka_client.Callback.Delivery as Delivery
use kafka_client.Producer.State.{KafkaProducer}
use kafka_client.Producer.Lifecycle.{init_kafka, close_kafka, destruct}
use kafka_client.Producer.Lifecycle.Owned.{Owns}
use kafka_client.Producer.Session.{Posted, Session}
use kafka_client.Producer.Session.Life.{init_kafka-close_kafka}

-- If `initKafka` is called, without a callback, on an object that owns a producer and a
-- configuration already, and answers `true`: after a `closeKafka` that returns, with any sends,
-- polls and settings that have returned between, every `send` at a time whose milliseconds a
-- `long long` holds, both the earlier producer and the earlier configuration still exist, and the
-- object points to neither of them any more.
pub init_kafka_again :
    (env : Env) (custom : Map) (brokers agent : Text) (time_out : ℤ) (fuel o g : ℕ)
    (l : List Posted) (p₀ p₁ p₂ p₃ : KafkaProducer) (tr₀ tr₁ tr₂ tr₃ : Trace)
    → Owns p₀ tr₀
    → p₀.producer ≡ some o
    → p₀.global_conf ≡ some g
    → init_kafka env custom brokers agent none time_out p₀ tr₀ ≡ (true, p₁, tr₁)
    → Session env p₁ tr₁ l p₂ tr₂
    → close_kafka env fuel p₂ tr₂ ≡ ok (p₃, tr₃)
    → (alive o tr₃ ≡ true) × (alive g tr₃ ≡ true) × (p₃.producer ≡ none) × (p₃.global_conf ≡ none)
init_kafka_again env custom brokers agent time_out fuel o g l p₀ p₁ p₂ p₃ tr₀ tr₁ tr₂ tr₃ held found
      configured started session closed =
    let (same, emptied, unconfigured, owns, messages) =
      init_kafka-close_kafka env custom brokers agent none time_out fuel l p₀ p₁ p₂ p₃ tr₀ tr₁ tr₂
        tr₃ held tt started session closed in
    (
      same o ∙ subst (λ x. Live x tr₀) found held.live_o,
      same g ∙ subst (λ x. Live x tr₀) configured held.live_c,
      emptied,
      unconfigured,
    )

no_callback : {o c s : Option ℕ} (tr : Trace) → Holds o c s tr → Holds o c none tr
no_callback tr held = record {
  safe = held.safe;
  numbered = held.numbered;
  live_o = held.live_o;
  live_c = held.live_c;
  live_s = tt;
  apart_oc = held.apart_oc;
  apart_os = Apart-none _;
  apart_cs = Apart-none _;
}
  where
    Apart-none : (o : Option ℕ) → Apart o none
    Apart-none none = tt
    Apart-none (some h) = tt

callback_deleted :
    {o c : Option ℕ} (s : Option ℕ) (tr : Trace)
    → Holds o c s tr
    → Holds o c none (elim s [ some h ↦ delete_send_callback h ∷ tr | none ↦ tr ])
unfolding created destroyed needed
callback_deleted none tr held = held
callback_deleted {o} {c} (some h) tr held =
    Holds-deleted_other (delete_send_callback h) h tr refl refl (held.live_s, tt)
      (Apart-sym o (some h) held.apart_os) (Apart-sym c (some h) held.apart_cs) tt
      (no_callback tr held)

callback_destructed :
    {o c : Option ℕ} (k : Delivery.ProducerCallback) (tr : Trace)
    → Holds o c k.send_callback tr
    → Holds o c none (Delivery.destruct k tr).1
unfolding Delivery.destruct
callback_destructed {o} {c} k tr held =
    if-elim {A = Delivery.ProducerCallback × Trace} (λ r. Holds o c none r.1) k.is_default_callback
      (callback_deleted k.send_callback tr held) (no_callback tr held)

-- Whether an object is the callback that its owner's destructor deletes.
abbrev pub is_deleted_callback : Bool → Option ℕ → ℕ → Bool
is_deleted_callback false s h = false
is_deleted_callback true none h = false
is_deleted_callback true (some s) h = s == h

deleted-objects :
    (s : Option ℕ) (h : ℕ) (tr : Trace)
    → alive h (elim s [ some j ↦ delete_send_callback j ∷ tr | none ↦ tr ])
      ≡ (if is_deleted_callback true s h then false else alive h tr)
unfolding created destroyed
deleted-objects none h tr = refl
deleted-objects (some j) h tr = alive-gone (delete_send_callback j) j h tr refl refl

destructed-objects :
    (k : Delivery.ProducerCallback) (h : ℕ) (tr : Trace)
    → alive h (Delivery.destruct k tr).1
      ≡ (if is_deleted_callback k.is_default_callback k.send_callback h then false else alive h tr)
unfolding Delivery.destruct
destructed-objects k h tr = elim (Bool-cases k.is_default_callback) [
  | inl own ↦ rw own (deleted-objects k.send_callback h tr)
  | inr other ↦ rw other refl
]

-- The destructor of a producer that owns what it points to uses no object that is gone, and deletes
-- exactly the callback that the constructor made, if it is still registered. A producer and a
-- configuration that `closeKafka` has not deleted still exist after it.
pub destruct-Owns :
    (p : KafkaProducer) (tr : Trace)
    → Owns p tr
    → IsSafe (destruct p tr)
      × Live p.producer (destruct p tr)
      × Live p.global_conf (destruct p tr)
      × ((h : ℕ)
          → let k = p.producer_callback in
            alive h (destruct p tr) ≡ (
              if is_deleted_callback k.is_default_callback k.send_callback h
              then false
              else alive h tr))
unfolding destruct created destroyed needed
destruct-Owns p tr held =
    let waited : Owns p (wait_destroyed (pos 5000) ∷ tr) = Holds-neutral _ tr refl refl tt held in
    let kept = callback_destructed p.producer_callback _ waited in
    (
      kept.safe,
      kept.live_o,
      kept.live_c,
      λ h.
          destructed-objects p.producer_callback h (wait_destroyed (pos 5000) ∷ tr)
          ∙ ap
              (λ b.
                if is_deleted_callback p.producer_callback.is_default_callback
                  p.producer_callback.send_callback h
                then false
                else b)
              (alive-neutral (wait_destroyed (pos 5000)) h tr refl refl),
    )
