-- ===== src/Application.antt =====
-- An application that uses two client objects, such as a producer and a consumer, in turn. What it
-- may rely on is an interface, which Application/Clients fills.
pub mod Clients
pub mod Both
pub mod Interleaved
use kafka_client.Base.{ℕ, ◌∙◌, refl, Option, none, some}
use kafka_client.Kafka.{Trace}
use kafka_client.Ownership.{Holds, Live}
use kafka_client.Ownership.Frame.{SameObjects}

-- A client object: what it points to, what one complete use of it is, and what that promises.
pub record Owner (S : Type 0) : Type 1 where
  pub object : S → Option ℕ
  pub configuration : S → Option ℕ
  pub callback : S → Option ℕ
  pub Round : S → Trace → S → Trace → Type 0
  pub Round-Holds :
      (s s' : S) (tr tr' : Trace)
      → Holds (object s) (configuration s) (callback s) tr
      → Round s tr s' tr'
      → Holds (object s') (configuration s') (callback s') tr'
  pub Round-SameObjects :
      (s s' : S) (tr tr' : Trace)
      → Holds (object s) (configuration s) (callback s) tr
      → Round s tr s' tr'
      → SameObjects tr tr'

abbrev pub OwnerHolds : {S : Type 0} → Owner S → S → Trace → Type 0
OwnerHolds A s tr = Holds (A.object s) (A.configuration s) (A.callback s) tr

Live-SameObjects : (o : Option ℕ) (tr tr' : Trace) → SameObjects tr tr' → Live o tr → Live o tr'
Live-SameObjects none tr tr' same l = tt
Live-SameObjects (some h) tr tr' same l = same h ∙ l

-- What is owned is still owned after another's use of the library.
Holds-SameObjects :
    {o c s o' c' s' : Option ℕ} (tr tr' : Trace)
    → SameObjects tr tr'
    → Holds o c s tr
    → Holds o' c' s' tr'
    → Holds o c s tr'
Holds-SameObjects {o} {c} {s} tr tr' same held other = record {
  safe = other.safe;
  numbered = other.numbered;
  live_o = Live-SameObjects o tr tr' same held.live_o;
  live_c = Live-SameObjects c tr tr' same held.live_c;
  live_s = Live-SameObjects s tr tr' same held.live_s;
  apart_oc = held.apart_oc;
  apart_os = held.apart_os;
  apart_cs = held.apart_cs;
}

module _ {S T : Type 0} (A : Owner S) (B : Owner T) where
  -- Complete uses of the two, in any order and number.
  pub data Uses (s₀ : S) (t₀ : T) (tr₀ : Trace) : S → T → Trace → Type 0 where
    unused : Uses s₀ t₀ tr₀ s₀ t₀ tr₀
    by_first :
        {s s' : S} {t : T} {tr tr' : Trace}
        → Uses s₀ t₀ tr₀ s t tr
        → A.Round s tr s' tr'
        → Uses s₀ t₀ tr₀ s' t tr'
    by_second :
        {s : S} {t t' : T} {tr tr' : Trace}
        → Uses s₀ t₀ tr₀ s t tr
        → B.Round t tr t' tr'
        → Uses s₀ t₀ tr₀ s t' tr'

  pub Uses-Holds :
      {s₀ : S} {t₀ : T} {tr₀ : Trace} {s : S} {t : T} {tr : Trace}
      → OwnerHolds A s₀ tr₀
      → OwnerHolds B t₀ tr₀
      → Uses s₀ t₀ tr₀ s t tr
      → OwnerHolds A s tr × OwnerHolds B t tr × SameObjects tr₀ tr
  Uses-Holds a b unused = (a, b, λ h. refl)
  Uses-Holds a b (by_first {s} {s'} {t} {tr} {tr'} before round) =
      let (held, other, same) = Uses-Holds a b before in
      let now = A.Round-Holds s s' tr tr' held round in
      let same' = A.Round-SameObjects s s' tr tr' held round in
      (now, Holds-SameObjects tr tr' same' other now, λ h. same' h ∙ same h)
  Uses-Holds a b (by_second {s} {t} {t'} {tr} {tr'} before round) =
      let (other, held, same) = Uses-Holds a b before in
      let now = B.Round-Holds t t' tr tr' held round in
      let same' = B.Round-SameObjects t t' tr tr' held round in
      (Holds-SameObjects tr tr' same' other now, now, λ h. same' h ∙ same h)
