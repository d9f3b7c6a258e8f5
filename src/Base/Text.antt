-- ===== src/Base/Text.antt =====
-- A `std::string` as its bytes, with the C string that begins at its first byte, and the equality
-- and the lexicographic order of `std::string`.
use kafka_client.Base.{
  ℕ, ◌≤◌, ◌≡◌, refl, ◌↔◌, ◌≢◌, Bool, true, false, ◌&&◌, List, [], ◌∷◌, ◌++◌, compare, Ordering,
  arith, ◌==◌, if◌then◌else◌, length, All,
}
use Prim.Native.Char.{code}
use Prim.Native.String.{String}

abbrev pub Text : Type 0
Text = List ℕ

-- The bytes of a quoted ASCII text.
abbrev pub codes : String → Text
codes String.[] = []
codes (String.◌∷◌ c s) = code c ∷ codes s

-- The C string at the first byte of a buffer that goes on behind `t` with a NUL: `t` up to its
-- first NUL.
unfoldable pub c_string : Text → Text
c_string [] = []
c_string (c ∷ t) = let rest = c_string t in if c == 0 then [] else c ∷ rest

-- No byte of the text is NUL.
abbrev pub IsCString : Text → Type 0
IsCString = All (λ c. c ≢ 0)

pub c_string-IsCString : (t : Text) → IsCString (c_string t)
unfolding c_string
c_string-IsCString [] = tt
c_string-IsCString (c ∷ t) = ground (arith, c_string-IsCString t)

pub c_string-eq_self : (t : Text) → IsCString t → c_string t ≡ t
unfolding c_string
c_string-eq_self [] h = refl
c_string-eq_self (c ∷ t) h = ground (arith, c_string-eq_self t h.1)

pub c_string_idem : (t : Text) → c_string (c_string t) ≡ c_string t
c_string_idem t = c_string-eq_self (c_string t) (c_string-IsCString t)

pub length-c_string : (t : Text) → length (c_string t) ≤ length t
unfolding c_string
length-c_string [] = omega arith
length-c_string (c ∷ t) = ground (arith, length-c_string t)

-- What stands behind the first NUL is not seen.
pub c_string-append_nul : (t u : Text) → IsCString t → c_string (t ++ (0 ∷ u)) ≡ t
unfolding c_string
c_string-append_nul [] u h = refl
c_string-append_nul (c ∷ t) u h = ground (arith, c_string-append_nul t u h.1)

-- `operator==` of `std::string`.
unfoldable pub text_eq : Text → Text → Bool
text_eq [] [] = true
text_eq [] (b ∷ u) = false
text_eq (a ∷ t) [] = false
text_eq (a ∷ t) (b ∷ u) = a == b && text_eq t u

pub text_eq_iff : (t u : Text) → (text_eq t u ≡ true) ↔ (t ≡ u)
unfolding text_eq
text_eq_iff [] [] = (λ h. refl, λ h. refl)
text_eq_iff [] (b ∷ u) = (λ h. cc, λ h. cc)
text_eq_iff (a ∷ t) [] = (λ h. cc, λ h. cc)
text_eq_iff (a ∷ t) (b ∷ u) = ground (arith, text_eq_iff t u)

-- `operator<` of `std::string`: byte by byte, and a proper prefix comes first.
unfoldable pub text_lt : Text → Text → Bool
text_lt [] [] = false
text_lt [] (b ∷ u) = true
text_lt (a ∷ t) [] = false
text_lt (a ∷ t) (b ∷ u) =
    let rest = text_lt t u in
    elim (compare a b) [ Ordering.lt ↦ true | Ordering.eq ↦ rest | Ordering.gt ↦ false ]

pub text_lt_trans : (s t u : Text) → text_lt s t ≡ true → text_lt t u ≡ true → text_lt s u ≡ true
unfolding text_lt
text_lt_trans [] [] u h g = cc
text_lt_trans [] (b ∷ t) [] h g = cc
text_lt_trans [] (b ∷ t) (c ∷ u) h g = refl
text_lt_trans (a ∷ s) [] u h g = cc
text_lt_trans (a ∷ s) (b ∷ t) [] h g = cc
text_lt_trans (a ∷ s) (b ∷ t) (c ∷ u) h g = ground (arith, text_lt_trans s t u)

-- Of two different texts one is less.
pub text_lt_total : (s t : Text) → text_eq s t ≡ false → text_lt t s ≡ false → text_lt s t ≡ true
unfolding text_lt text_eq
text_lt_total [] [] h g = cc
text_lt_total [] (b ∷ t) h g = refl
text_lt_total (a ∷ s) [] h g = cc
text_lt_total (a ∷ s) (b ∷ t) h g = ground (arith, text_lt_total s t)
