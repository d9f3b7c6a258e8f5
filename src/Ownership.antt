-- ===== src/Ownership.antt =====
-- The objects that a client object owns: the producer or consumer `o`, the configuration `c` and
-- the callback `s`, each of which it may lack. What every call leaves of them.
pub mod Created
pub mod Destroyed
pub mod Frame
use kafka_client.Base.{
  ℕ, ◌≤◌, ◌≡◌, ◌≢◌, ◌∙◌, ap, sym, true, false, Option, none, some, ◌∷◌, arith, ◌==◌, if◌then◌else◌,
  length, All,
}
use kafka_client.Kafka.{Call, Trace, fresh, created, destroyed, needed, alive, alive-cons, IsSafe}

abbrev pub Live : Option ℕ → Trace → Type 0
Live none tr = Unit
Live (some h) tr = alive h tr ≡ true

abbrev pub Apart : Option ℕ → Option ℕ → Type 0
Apart none b = Unit
Apart (some h) none = Unit
Apart (some h) (some j) = h ≢ j

pub Apart-sym : (a b : Option ℕ) → Apart a b → Apart b a
Apart-sym none none ap = tt
Apart-sym none (some j) ap = tt
Apart-sym (some h) none ap = tt
Apart-sym (some h) (some j) ap = λ e. ap (sym e)

-- The owned objects exist and are different, no call has used an object that was gone, and the
-- next handle is new.
pub record Holds (o c s : Option ℕ) (tr : Trace) : Type 0 where
  pub safe : IsSafe tr
  pub numbered : (h : ℕ) → alive h tr ≡ true → h ≤ length tr
  pub live_o : Live o tr
  pub live_c : Live c tr
  pub live_s : Live s tr
  pub apart_oc : Apart o c
  pub apart_os : Apart o s
  pub apart_cs : Apart c s

-- A call that neither creates nor destroys changes nothing.
pub alive-neutral :
    (x : Call) (h : ℕ) (tr : Trace)
    → created x ≡ none
    → destroyed x ≡ none
    → alive h (x ∷ tr) ≡ alive h tr
unfolding alive
alive-neutral x h tr p q = rw (p, q)

Live-neutral :
    (x : Call) (o : Option ℕ) (tr : Trace)
    → created x ≡ none
    → destroyed x ≡ none
    → Live o tr
    → Live o (x ∷ tr)
Live-neutral x none tr p q l = tt
Live-neutral x (some h) tr p q l = alive-neutral x h tr p q ∙ l

pub Holds-neutral :
    {o c s : Option ℕ} (x : Call) (tr : Trace)
    → created x ≡ none
    → destroyed x ≡ none
    → All (λ h. alive h tr ≡ true) (needed x)
    → Holds o c s tr
    → Holds o c s (x ∷ tr)
Holds-neutral {o} {c} {s} x tr p q ready held = record {
  safe = (ready, held.safe);
  numbered = λ h l. omega (arith, held.numbered h (sym (alive-neutral x h tr p q) ∙ l));
  live_o = Live-neutral x o tr p q held.live_o;
  live_c = Live-neutral x c tr p q held.live_c;
  live_s = Live-neutral x s tr p q held.live_s;
  apart_oc = held.apart_oc;
  apart_os = held.apart_os;
  apart_cs = held.apart_cs;
}

-- Without a producer or consumer the rest is held all the same.
pub Holds-no_object : {o c s : Option ℕ} (tr : Trace) → Holds o c s tr → Holds none c s tr
Holds-no_object tr held = record {
  safe = held.safe;
  numbered = held.numbered;
  live_o = tt;
  live_c = held.live_c;
  live_s = held.live_s;
  apart_oc = tt;
  apart_os = tt;
  apart_cs = held.apart_cs;
}
