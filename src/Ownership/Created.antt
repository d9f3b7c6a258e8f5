-- ===== src/Ownership/Created.antt =====
-- A call that creates an object, and what is owned after it.
use kafka_client.Base.{
  ℕ, ◌≤◌, ◌≡◌, ◌≢◌, ◌∙◌, sym, true, Option, none, some, ◌∷◌, arith, ◌==◌, if◌then◌else◌, length,
  All,
}
use kafka_client.Kafka.{Call, Trace, fresh, created, destroyed, needed, alive, alive-cons}
use kafka_client.Ownership.{Holds, Live, Apart}

-- A new object: its handle is no earlier object's.
module _ (x : Call) (tr : Trace) (new : created x ≡ some (fresh tr))
    (kept : destroyed x ≡ none) where
  alive-created_if : (h : ℕ) → alive h (x ∷ tr) ≡ (if fresh tr == h then true else alive h tr)
  alive-created_if h = rw (alive-cons, kept, new)

  pub alive-created : (h : ℕ) → h ≢ fresh tr → alive h (x ∷ tr) ≡ alive h tr
  alive-created h ne = rw alive-created_if (ground arith)

  pub alive-created_self : alive (fresh tr) (x ∷ tr) ≡ true
  alive-created_self = rw alive-created_if (ground arith)

  numbered-created :
      ((h : ℕ) → alive h tr ≡ true → h ≤ length tr)
      → (h : ℕ) → alive h (x ∷ tr) ≡ true
      → h ≤ length (x ∷ tr)
  numbered-created numbered h l = ground (arith, numbered h, sym (alive-created_if h) ∙ l)

  Live-created :
      (o : Option ℕ)
      → ((h : ℕ) → alive h tr ≡ true → h ≤ length tr)
      → Live o tr
      → Live o (x ∷ tr) × Apart o (some (fresh tr)) × Apart (some (fresh tr)) o
  Live-created none numbered l = (tt, tt, tt)
  Live-created (some h) numbered l = (
    alive-created h (omega (arith, numbered h l)) ∙ l,
    omega (arith, numbered h l),
    omega (arith, numbered h l),
  )

  -- It takes the place of the producer or consumer, or that of the configuration.
  pub Holds-new_object :
      {o c s : Option ℕ}
      → All (λ h. alive h tr ≡ true) (needed x)
      → Holds o c s tr
      → Holds (some (fresh tr)) c s (x ∷ tr)
  Holds-new_object {o} {c} {s} ready held = record {
    safe = (ready, held.safe);
    numbered = numbered-created held.numbered;
    live_o = alive-created_self;
    live_c = (Live-created c held.numbered held.live_c).0;
    live_s = (Live-created s held.numbered held.live_s).0;
    apart_oc = (Live-created c held.numbered held.live_c).2;
    apart_os = (Live-created s held.numbered held.live_s).2;
    apart_cs = held.apart_cs;
  }

  pub Holds-new_configuration :
      {o c s : Option ℕ}
      → All (λ h. alive h tr ≡ true) (needed x)
      → Holds o c s tr
      → Holds o (some (fresh tr)) s (x ∷ tr)
  Holds-new_configuration {o} {c} {s} ready held = record {
    safe = (ready, held.safe);
    numbered = numbered-created held.numbered;
    live_o = (Live-created o held.numbered held.live_o).0;
    live_c = alive-created_self;
    live_s = (Live-created s held.numbered held.live_s).0;
    apart_oc = (Live-created o held.numbered held.live_o).1;
    apart_os = held.apart_os;
    apart_cs = (Live-created s held.numbered held.live_s).2;
  }

  -- It may also belong to nobody yet.
  pub Holds-new_other :
      {o c s : Option ℕ}
      → All (λ h. alive h tr ≡ true) (needed x)
      → Holds o c s tr
      → Holds o c s (x ∷ tr)
        × Apart (some (fresh tr)) o
        × Apart (some (fresh tr)) c
        × Apart (some (fresh tr)) s
  Holds-new_other {o} {c} {s} ready held = (
    record {
      safe = (ready, held.safe);
      numbered = numbered-created held.numbered;
      live_o = (Live-created o held.numbered held.live_o).0;
      live_c = (Live-created c held.numbered held.live_c).0;
      live_s = (Live-created s held.numbered held.live_s).0;
      apart_oc = held.apart_oc;
      apart_os = held.apart_os;
      apart_cs = held.apart_cs;
    },
    (Live-created o held.numbered held.live_o).2,
    (Live-created c held.numbered held.live_c).2,
    (Live-created s held.numbered held.live_s).2,
  )
