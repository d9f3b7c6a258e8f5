-- ===== src/Base/Map/Extensional.antt =====
-- A map is determined by what it has at each key.
use kafka_client.Base.{
  ◌≡◌, refl, sym, ◌∙◌, true, false, All, Option, none, some, [], ◌∷◌, arith, Bool-cases, inl, inr,
}
use mathlib.Core.Option.{some-injective}
use kafka_client.Base.Text.{Text, text_eq, text_eq_iff, text_lt, text_lt_total}
use kafka_client.Base.Map.{Map, lookup, IsAscending, Above-trans}

text_lt_irrefl : (t : Text) → text_lt t t ≡ false
unfolding text_lt
text_lt_irrefl [] = refl
text_lt_irrefl (a ∷ t) = ground (arith, text_lt_irrefl t)

text_eq_refl : (t : Text) → text_eq t t ≡ true
text_eq_refl t = (text_eq_iff t t).1 refl

-- A key below all others of a map is not among them.
lookup_below : (k : Text) (m : Map) → All (λ e. text_lt k (e.0) ≡ true) m → lookup k m ≡ none
unfolding lookup
lookup_below k [] below = refl
lookup_below k ((j, v) ∷ m) below =
    ground (arith, text_lt_irrefl k, text_eq_iff j k, lookup_below k m below.1)

-- So is a key below the first one.
lookup_before :
    (k j v : Text) (m : Map)
    → text_lt k j ≡ true
    → IsAscending ((j, v) ∷ m)
    → lookup k ((j, v) ∷ m) ≡ none
lookup_before k j v m before ascending =
    lookup_below k ((j, v) ∷ m) (before, Above-trans k j m before ascending.0)

lookup_first : (k v : Text) (m : Map) → lookup k ((k, v) ∷ m) ≡ some v
unfolding lookup
lookup_first k v m = rw (text_eq_refl k)

none_some : {A B : Type 0} {a : A} → ◌≡◌ {A = Option A} none (some a) → B
none_some e = cc

-- Behind a common first key, two maps with the same values have the same values.
lookup_rest :
    (k v : Text) (m n : Map)
    → IsAscending ((k, v) ∷ m)
    → IsAscending ((k, v) ∷ n)
    → (i : Text) → lookup i ((k, v) ∷ m) ≡ lookup i ((k, v) ∷ n)
    → lookup i m ≡ lookup i n
unfolding lookup
lookup_rest k v m n am an i same = elim (Bool-cases (text_eq k i)) [
  | inl equal ↦
      let e : k ≡ i = (text_eq_iff k i).0 equal in
      rw (← e) (lookup_below k m am.0 ∙ sym (lookup_below k n an.0))
  | inr differ ↦ rw differ at same
]

first_value : (k v w : Text) (m n : Map) → lookup k ((k, v) ∷ m) ≡ lookup k ((k, w) ∷ n) → v ≡ w
first_value k v w m n same =
    some-injective v w (sym (lookup_first k v m) ∙ same ∙ lookup_first k w n)

pub Map-ext :
    (m n : Map) → IsAscending m → IsAscending n → ((k : Text) → lookup k m ≡ lookup k n) → m ≡ n
unfolding lookup
Map-ext [] [] am an same = refl
Map-ext [] ((k, w) ∷ n) am an same = none_some (same k ∙ lookup_first k w n)
Map-ext ((j, v) ∷ m) [] am an same = none_some (sym (same j) ∙ lookup_first j v m)
Map-ext ((j, v) ∷ m) ((k, w) ∷ n) am an same = elim (Bool-cases (text_eq j k)) [
  | inl equal ↦
      let e : j ≡ k = (text_eq_iff j k).0 equal in
      let value : v ≡ w = first_value j v w m n (rw (← e) at (same j)) in
      let rest : m ≡ n =
        Map-ext m n am.1 an.1
          (λ i. lookup_rest k w m n (rw e at am) an i (rw (e, value) at (same i))) in
      cc (e, value, rest)
  | inr differ ↦ elim (Bool-cases (text_lt j k)) [
    | inl less ↦ none_some (sym (lookup_before j k w n less an) ∙ sym (same j) ∙ lookup_first j v m)
    | inr not_less ↦ none_some (
        sym (lookup_before k j v m (text_lt_total k j (differ' differ) not_less) am)
        ∙ same k
        ∙ lookup_first k w n)
  ]
]
  where
    differ' : text_eq j k ≡ false → text_eq k j ≡ false
    differ' d = ground (arith, text_eq_iff j k, text_eq_iff k j)
