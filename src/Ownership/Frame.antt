-- ===== src/Ownership/Frame.antt =====
-- Which objects exist after some calls that did not exist before, or the other way round.
use kafka_client.Base.{
  ℕ, ◌≡◌, refl, ◌∙◌, true, false, Bool-cases, inl, inr, Option, none, some, ◌∷◌, arith, ◌==◌,
  if◌then◌else◌, [], length, ◌<◌, ◌≤◌, sym, ap, Bool,
}
use kafka_client.Base.Map.{Map}
use kafka_client.Kafka.{
  Env, Call, Trace, fresh, created, destroyed, alive, alive-cons, conf_set, conf_ok,
}
use kafka_client.Config.Order.{all_set}
use kafka_client.Ownership.{Holds, alive-neutral}

-- The same objects exist after both traces.
abbrev pub SameObjects : Trace → Trace → Type 0
SameObjects tr tr' = (h : ℕ) → alive h tr' ≡ alive h tr

pub SameObjects-trans :
    (tr tr' tr'' : Trace) → SameObjects tr tr' → SameObjects tr' tr'' → SameObjects tr tr''
SameObjects-trans tr tr' tr'' p q h = q h ∙ p h

-- No handle that comes later is an object's.
pub later-dead :
    {o c s : Option ℕ} (n : ℕ) (tr : Trace) → Holds o c s tr → length tr < n → alive n tr ≡ false
later-dead n tr held later = elim (Bool-cases (alive n tr)) [
  | inr dead ↦ dead
  | inl live ↦ absurd (omega (arith, held.numbered n live))
]

pub fresh-dead : {o c s : Option ℕ} (tr : Trace) → Holds o c s tr → alive (fresh tr) tr ≡ false
fresh-dead tr held = later-dead (fresh tr) tr held (omega arith)

pub alive-new :
    (x : Call) (n h : ℕ) (tr : Trace)
    → created x ≡ some n
    → destroyed x ≡ none
    → alive h (x ∷ tr) ≡ (if n == h then true else alive h tr)
alive-new x n h tr p q = rw (alive-cons, q, p) (ground arith)

pub alive-gone :
    (x : Call) (n h : ℕ) (tr : Trace)
    → created x ≡ none
    → destroyed x ≡ some n
    → alive h (x ∷ tr) ≡ (if n == h then false else alive h tr)
alive-gone x n h tr p q = rw (alive-cons, q, p) (ground arith)

pub all_set-SameObjects :
    (env : Env) (conf : ℕ) (m : Map) (tr : Trace) → SameObjects tr (all_set env conf m tr)
unfolding created destroyed
all_set-SameObjects env conf [] tr h = refl
all_set-SameObjects env conf ((k, v) ∷ m) tr h =
    all_set-SameObjects env conf m _ h ∙ alive-neutral _ h tr refl refl

pub all_set-longer :
    (env : Env) (conf : ℕ) (m : Map) (tr : Trace) → length tr ≤ length (all_set env conf m tr)
all_set-longer env conf [] tr = omega arith
all_set-longer env conf ((k, v) ∷ m) tr =
    omega (arith, all_set-longer env conf m (conf_set conf k v conf_ok ∷ tr))

-- Two objects that were not there come and go.
pub back :
    (o g h : ℕ) (base : ℕ → Bool) {b c : Bool}
    → base o ≡ false
    → base g ≡ false
    → c ≡ (if g == h then false else if o == h then false else b)
    → b ≡ (if o == h then true else if g == h then true else base h)
    → c ≡ base h
back o g h base {b} {c} new_o new_g e f = elim (Bool-cases (g == h)) [
  | inl same ↦ (rw same at e) ∙ sym (ap base (sym (==→≡ same)) ∙ new_g)
  | inr apart ↦ elim (Bool-cases (o == h)) [
    | inl same ↦ (rw (apart, same) at e) ∙ sym (ap base (sym (==→≡ same)) ∙ new_o)
    | inr apart' ↦ (rw (apart, apart') at e) ∙ (rw (apart', apart) at f)
  ]
]
  where
    ==→≡ : {a b : ℕ} → (a == b) ≡ true → a ≡ b
    ==→≡ q = ground arith
