-- ===== src/Producer/Uuid/Shape.antt =====
-- What a message id looks like, and when two of them are the same.
use kafka_client.Base.{
  ℕ, zero, suc, ◌+◌, ◌*◌, ◌%◌, ◌^◌, ◌<◌, ◌≡◌, ◌≢◌, ◌⊎◌, refl, ap, Bool, true, false, not, ◌&&◌,
  ◌||◌, [], ◌∷◌, arith, bit_and, leb, ◌==◌, if◌then◌else◌, get_or, length, All₂, All₂-length,
  passes_below, passes_below_sound,
}
use kafka_client.Base.Text.{Text, c_string, IsCString, c_string-IsCString}
use kafka_client.Kafka.{Env, TimeVal}
use kafka_client.Producer.Uuid.{template, hex, seed_of, uuid_char, fill, get_random_uuid}

-- A digit 0 to 9 or A to F.
abbrev pub is_hex : ℕ → Bool
is_hex c = (leb b'0' c && leb c b'9') || (leb b'A' c && leb c b'F')

-- One of the digits 0 to 3, 8, 9, A and B.
abbrev pub is_variant : ℕ → Bool
is_variant c =
    (leb b'0' c && leb c b'3') || (leb b'8' c && leb c b'9') || (leb b'A' c && leb c b'B')

-- What stands at a place of the template: a hexadecimal digit at an `x`, a restricted one at the
-- `y`, and the template's own character elsewhere.
abbrev pub fits : ℕ → ℕ → Bool
fits t c = if t == b'x' then is_hex c else if t == b'y' then is_variant c else c == t

abbrev Fits : ℕ → ℕ → Type 0
Fits t c = fits t c ≡ true

-- All sixteen draws give a fitting character, which is not NUL.
fits_all : ℕ → Bool
fits_all t = passes_below 16 (λ r. fits t (uuid_char t r) && not (uuid_char t r == 0))

all_places : Text → Bool
all_places [] = true
all_places (t ∷ ts) = fits_all t && all_places ts

uuid_char-Fits :
    (t r : ℕ) → fits_all t ≡ true → Fits t (uuid_char t (r % 16)) × (uuid_char t (r % 16) ≢ 0)
unfolding fits_all
uuid_char-Fits t r h = ground (
  arith,
  passes_below_sound 16 (λ d. fits t (uuid_char t d) && not (uuid_char t d == 0)) (r % 16) h
      (omega arith),
)

-- One of the digits 8, 9, A and B.
abbrev pub is_rfc_variant : ℕ → Bool
is_rfc_variant c = (leb b'8' c && leb c b'9') || (leb b'A' c && leb c b'B')

abbrev variant_of : ℕ → ℕ
variant_of d = get_or hex (bit_and d 11) 0

variant_table :
    passes_below 16 (λ d.
      if bit_and d 8 == 8
      then is_rfc_variant (variant_of d)
      else (bit_and d 8 == 0 && not (is_rfc_variant (variant_of d)) && leb (variant_of d) b'3'))
    ≡ true
unfolding passes_below
variant_table = refl

variant_cases :
    (d : ℕ)
    → d < 16
    → let c = variant_of d in
      ((bit_and d 8 ≡ 8) × (is_rfc_variant c ≡ true))
      ⊎ ((bit_and d 8 ≡ 0) × (is_rfc_variant c ≡ false) × (leb c b'3' ≡ true))
variant_cases d h = grind (
  arith,
  passes_below_sound 16
      (λ d.
        if bit_and d 8 == 8
        then is_rfc_variant (variant_of d)
        else (bit_and d 8 == 0 && not (is_rfc_variant (variant_of d)) && leb (variant_of d) b'3'))
      d variant_table h,
)

module _ (env : Env) where
  fill-Fits :
      (ts : Text) (seed : ℕ) → all_places ts ≡ true → All₂ Fits ts (c_string (fill env ts seed))
  unfolding fill c_string all_places
  fill-Fits [] seed h = tt
  fill-Fits (t ∷ ts) seed h =
      ground (arith, uuid_char-Fits t (env.rand_r seed).0, fill-Fits ts (env.rand_r seed).1)

  template-fits : all_places template ≡ true
  unfolding all_places fits_all uuid_char passes_below
  template-fits = refl

  -- A message id has 36 characters, none of them NUL: hexadecimal digits, with dashes and the `4`
  -- where the template has them, and one of 0 to 3, 8, 9, A and B at its `y`.
  pub get_random_uuid-fits :
      (t : TimeVal)
      → let id = get_random_uuid env t in
        All₂ (λ p c. fits p c ≡ true) template id × (length id ≡ 36) × IsCString id
  unfolding get_random_uuid
  get_random_uuid-fits t = (
    fill-Fits template (seed_of t) template-fits,
    All₂-length Fits template _ (fill-Fits template (seed_of t) template-fits),
    c_string-IsCString (fill env template (seed_of t)),
  )

  -- The id is a function of the time in microseconds modulo 2^32: it comes again, with whatever
  -- `rand_r`, when that much time has gone by, after some 71 minutes.
  pub get_random_uuid-repeats :
      (t t' : TimeVal) (k : ℕ)
      → t'.sec * 1000000 + t'.usec ≡ t.sec * 1000000 + t.usec + k * 2 ^ 32
      → get_random_uuid env t' ≡ get_random_uuid env t
  unfolding get_random_uuid
  get_random_uuid-repeats t t' k h = ap (λ seed. c_string (fill env template seed)) same_seed
    where
      same_seed : seed_of t' ≡ seed_of t
      same_seed = omega arith

  -- The seed of the `n`-th draw.
  abbrev seed_at : ℕ → ℕ → ℕ
  seed_at zero seed = seed
  seed_at (suc n) seed = seed_at n (env.rand_r seed).1

  -- The draw for the template's `y`.
  abbrev pub variant_draw : TimeVal → ℕ
  variant_draw t = (env.rand_r (seed_at 19 (seed_of t))).0 % 16

  uuid_variant :
      (t : TimeVal)
      → get_or (fill env template (seed_of t)) 19 0 ≡ get_or hex (bit_and (variant_draw t) 11) 0
  unfolding fill uuid_char
  uuid_variant t = refl

  get_or-c_string-fill :
      (ts : Text) (seed n : ℕ)
      → all_places ts ≡ true
      → n < length ts
      → get_or (c_string (fill env ts seed)) n 0 ≡ get_or (fill env ts seed) n 0
  unfolding fill c_string all_places
  get_or-c_string-fill [] seed n h lt = absurd (omega arith)
  get_or-c_string-fill (t ∷ ts) seed zero h lt =
      ground (arith, uuid_char-Fits t (env.rand_r seed).0)
  get_or-c_string-fill (t ∷ ts) seed (suc n) h lt =
      ground
        (arith, uuid_char-Fits t (env.rand_r seed).0, get_or-c_string-fill ts (env.rand_r seed).1 n)

  -- The character at the template's `y` is 8, 9, A or B, as RFC 4122 wants it of a version 4
  -- identifier, if bit 3 of the draw is set, and one of 0 to 3 if it is not.
  pub get_random_uuid_variant :
      (t : TimeVal)
      → let c = get_or (get_random_uuid env t) 19 0 in
        ((bit_and (variant_draw t) 8 ≡ 8) × (is_rfc_variant c ≡ true))
        ⊎ ((bit_and (variant_draw t) 8 ≡ 0) × (is_rfc_variant c ≡ false) × (leb c b'3' ≡ true))
  unfolding get_random_uuid
  get_random_uuid_variant t =
      rw (get_or-c_string-fill template (seed_of t) 19 template-fits (omega arith), uuid_variant t)
        (variant_cases (variant_draw t) (omega arith))
