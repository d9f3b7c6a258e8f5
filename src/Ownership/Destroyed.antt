-- ===== src/Ownership/Destroyed.antt =====
-- A call after which an object is gone, and what is owned after it.
use kafka_client.Base.{
  ℕ, ◌≤◌, ◌≡◌, ◌≢◌, ◌∙◌, ap, sym, true, false, Option, none, some, ◌∷◌, arith, ◌==◌, if◌then◌else◌,
  length, All,
}
use kafka_client.Kafka.{Call, Trace, created, destroyed, needed, alive, alive-cons}
use kafka_client.Ownership.{Holds, Live, Apart}

-- An object that goes away leaves the objects apart from it.
module _ (x : Call) (h : ℕ) (tr : Trace) (gone : destroyed x ≡ some h)
    (none_new : created x ≡ none) where
  alive-destroyed_if : (j : ℕ) → alive j (x ∷ tr) ≡ (if h == j then false else alive j tr)
  alive-destroyed_if j = rw (alive-cons, gone, none_new)

  pub alive-destroyed_self : alive h (x ∷ tr) ≡ false
  alive-destroyed_self = rw alive-destroyed_if (ground arith)

  pub alive-destroyed : (j : ℕ) → j ≢ h → alive j (x ∷ tr) ≡ alive j tr
  alive-destroyed j ne = rw alive-destroyed_if (ground arith)

  pub Live-destroyed : (o : Option ℕ) → Apart (some h) o → Live o tr → Live o (x ∷ tr)
  Live-destroyed none ap l = tt
  Live-destroyed (some j) ap l = alive-destroyed j (λ e. ap (sym e)) ∙ l

  pub numbered-destroyed :
      ((j : ℕ) → alive j tr ≡ true → j ≤ length tr)
      → (j : ℕ) → alive j (x ∷ tr) ≡ true
      → j ≤ length (x ∷ tr)
  numbered-destroyed numbered j l = ground (arith, numbered j, sym (alive-destroyed_if j) ∙ l)

  pub Holds-deleted_object :
      {c s : Option ℕ}
      → All (λ j. alive j tr ≡ true) (needed x)
      → Holds (some h) c s tr
      → Holds none c s (x ∷ tr)
  Holds-deleted_object {c} {s} ready held = record {
    safe = (ready, held.safe);
    numbered = numbered-destroyed held.numbered;
    live_o = tt;
    live_c = Live-destroyed c held.apart_oc held.live_c;
    live_s = Live-destroyed s held.apart_os held.live_s;
    apart_oc = tt;
    apart_os = tt;
    apart_cs = held.apart_cs;
  }

  pub Holds-deleted_configuration :
      {s : Option ℕ}
      → All (λ j. alive j tr ≡ true) (needed x)
      → Holds none (some h) s tr
      → Holds none none s (x ∷ tr)
  Holds-deleted_configuration {s} ready held = record {
    safe = (ready, held.safe);
    numbered = numbered-destroyed held.numbered;
    live_o = tt;
    live_c = tt;
    live_s = Live-destroyed s held.apart_cs held.live_s;
    apart_oc = tt;
    apart_os = tt;
    apart_cs = tt;
  }

  pub Holds-deleted_other :
      {o c s : Option ℕ}
      → All (λ j. alive j tr ≡ true) (needed x)
      → Apart (some h) o
      → Apart (some h) c
      → Apart (some h) s
      → Holds o c s tr
      → Holds o c s (x ∷ tr)
  Holds-deleted_other {o} {c} {s} ready ao ac as' held = record {
    safe = (ready, held.safe);
    numbered = numbered-destroyed held.numbered;
    live_o = Live-destroyed o ao held.live_o;
    live_c = Live-destroyed c ac held.live_c;
    live_s = Live-destroyed s as' held.live_s;
    apart_oc = held.apart_oc;
    apart_os = held.apart_os;
    apart_cs = held.apart_cs;
  }
