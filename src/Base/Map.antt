-- ===== src/Base/Map.antt =====
-- `std::map<std::string, std::string>`: pairs in ascending order of their keys.
pub mod Extensional
use kafka_client.Base.{
  ◌≡◌, refl, true, All, Option, none, some, List, [], ◌∷◌, arith, if◌then◌else◌,
}
use kafka_client.Base.Text.{Text, text_eq, text_eq_iff, text_lt, text_lt_trans, text_lt_total}

abbrev pub Map : Type 0
Map = List (Text × Text)

unfoldable pub lookup : Text → Map → Option Text
lookup k [] = none
lookup k ((j, v) ∷ m) = if text_eq j k then some v else lookup k m

-- `m[k] = v`
unfoldable pub insert : Text → Text → Map → Map
insert k v [] = (k, v) ∷ []
insert k v ((j, w) ∷ m) =
    if text_eq j k
    then (k, v) ∷ m
    else if text_lt k j
    then (k, v) ∷ (j, w) ∷ m
    else (j, w) ∷ insert k v m

-- An assignment is seen at its key and nowhere else.
pub lookup-insert :
    (k j v : Text) (m : Map)
    → lookup j (insert k v m) ≡ (if text_eq k j then some v else lookup j m)
unfolding lookup insert
lookup-insert k j v [] = refl
lookup-insert k j v ((i, w) ∷ m) =
    ground (arith, text_eq_iff k j, text_eq_iff i k, text_eq_iff i j, lookup-insert k j v m)

-- The keys ascend, so none stands twice.
abbrev pub IsAscending : Map → Type 0
IsAscending [] = Unit
IsAscending ((k, v) ∷ m) = All (λ e. text_lt k (e.0) ≡ true) m × IsAscending m

insert-Above :
    (j k v : Text) (m : Map)
    → text_lt j k ≡ true
    → All (λ e. text_lt j (e.0) ≡ true) m
    → All (λ e. text_lt j (e.0) ≡ true) (insert k v m)
unfolding insert
insert-Above j k v [] h a = (h, tt)
insert-Above j k v ((i, w) ∷ m) h a = ground (arith, insert-Above j k v m h a.1)

pub Above-trans :
    (j k : Text) (m : Map)
    → text_lt j k ≡ true
    → All (λ e. text_lt k (e.0) ≡ true) m
    → All (λ e. text_lt j (e.0) ≡ true) m
Above-trans j k [] h a = tt
Above-trans j k ((i, w) ∷ m) h a = (text_lt_trans j k i h a.0, Above-trans j k m h a.1)

pub insert-IsAscending : (k v : Text) (m : Map) → IsAscending m → IsAscending (insert k v m)
unfolding insert
insert-IsAscending k v [] a = (tt, tt)
insert-IsAscending k v ((j, w) ∷ m) a = ground (
  arith,
  text_eq_iff j k,
  text_lt_total j k,
  Above-trans k j m,
  insert-Above j k v m,
  insert-IsAscending k v m,
)
