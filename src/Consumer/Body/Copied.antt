-- ===== src/Consumer/Body/Copied.antt =====
-- Which body comes out of the buffer, and when copying overruns it.
use kafka_client.Base.{
  ℕ, zero, suc, ◌+◌, ◌-◌, ◌≤◌, ◌<◌, ◌≡◌, refl, ap, ◌∙◌, ◌⊎◌, inl, inr, true, false, some, [], ◌∷◌,
  ◌++◌, leb, arith, length, take, drop, replicate, drop-replicate, length-replicate,
  replicate-append, length-take_le, ◌^◌, ◌%◌, none,
}
use mathlib.Core.List.{append-nil}
use native.Mathlib.Decide.{dec_lt}
use kafka_client.Base.Text.{Text, c_string, IsCString, length-c_string, c_string-IsCString}
use kafka_client.Kafka.{ok, fault, buffer_overflow, unterminated, null_pointer, ◌>>=◌, Result}
use kafka_client.Consumer.Body.{strncpy, read_buffer, copy_body, int_size}

read_buffer-append : (t u : Text) → IsCString t → read_buffer (t ++ (0 ∷ u)) ≡ ok t
unfolding read_buffer
read_buffer-append [] u h = refl
read_buffer-append (c ∷ t) u h = ground (arith, read_buffer-append t u h.1)

read_buffer_full : (t : Text) → IsCString t → read_buffer t ≡ fault unterminated
unfolding read_buffer
read_buffer_full [] h = refl
read_buffer_full (c ∷ t) h = ground (arith, read_buffer_full t h.1)

read_buffer-replicate :
    (t : Text) (k : ℕ) → IsCString t → 0 < k → read_buffer (t ++ replicate k 0) ≡ ok t
read_buffer-replicate t zero h p = absurd (omega arith)
read_buffer-replicate t (suc k) h p = read_buffer-append t (replicate k 0) h

abbrev zeros : ℕ → Text
zeros k = replicate k 0

-- The bytes behind the copied text are NUL up to the end of the buffer.
zeros_behind :
    (size n k : ℕ) → k ≤ n → n ≤ size → zeros (n - k) ++ drop n (zeros size) ≡ zeros (size - k)
zeros_behind size n k p q =
    ap (λ s. zeros (n - k) ++ drop n (zeros s)) split
    ∙ ap (λ t. zeros (n - k) ++ t) (drop-replicate n (size - n) 0)
    ∙ replicate-append (n - k) (size - n) 0
    ∙ ap zeros joined
  where
    split : size ≡ n + (size - n)
    split = omega arith

    joined : n - k + (size - n) ≡ size - k
    joined = omega arith

-- The text that is copied: the first `n` bytes of the source, up to their first NUL.
abbrev pub copied : ℕ → Text → Text
copied n source = c_string (take n source)

length-copied : (n : ℕ) (source : Text) → length (copied n source) ≤ n
length-copied n source = omega (arith, length-c_string (take n source), length-take_le n source)

strncpy-zeros :
    (size n : ℕ) (source : Text)
    → n ≤ size
    → strncpy (zeros size) source n
      ≡ ok (copied n source ++ zeros (size - length (copied n source)))
unfolding strncpy
strncpy-zeros size n source h =
    rw (fits, zeros_behind size n (length (copied n source)) (length-copied n source) h)
  where
    fits : leb n (length (zeros size)) ≡ true
    fits = ground (arith, length-replicate {A = ℕ} size 0)

strncpy_overflows :
    (size n : ℕ) (source : Text) → size < n → strncpy (zeros size) source n ≡ fault buffer_overflow
unfolding strncpy
strncpy_overflows size n source h = rw large
  where
    large : leb n (length (zeros size)) ≡ false
    large = ground (arith, length-replicate {A = ℕ} size 0)

-- What becomes of a copy of `n` bytes through a buffer of `size`.
abbrev pub Copies : ℕ → ℕ → Text → Result Text → Type 0
Copies size n source b =
    ((size < n) × (b ≡ fault buffer_overflow))
    ⊎ ((n ≤ size) × (length (copied n source) ≡ size) × (b ≡ fault unterminated))
    ⊎ ((n ≤ size) × (length (copied n source) < size) × (b ≡ ok (copied n source)))

copy-Copies :
    (size n : ℕ) (source : Text)
    → Copies size n source (strncpy (zeros size) source n >>= read_buffer)
copy-Copies size n source = elim (dec_lt size n) [
  | yes large ↦ inl (large, rw (strncpy_overflows size n source large))
  | no small ↦ elim (dec_lt (length (copied n source)) size) [
    | yes room ↦ inr (
        inr (
          omega arith,
          room,
          rw (strncpy-zeros size n source (omega arith)) (
              read_buffer-replicate (copied n source) _ (c_string-IsCString (take n source))
                (omega arith)),
        ))
    | no full ↦ inr (
        inl (
          omega arith,
          omega (arith, length-copied n source),
          rw (strncpy-zeros size n source (omega arith), filled full, append-nil (copied n source))
              (read_buffer_full (copied n source) (c_string-IsCString (take n source))),
        ))
  ]
]
  where
    filled : ¬ (length (copied n source) < size) → size - length (copied n source) ≡ 0
    filled full = omega arith

int_size_large : (n : ℕ) → 2 ^ 31 ≤ n % 2 ^ 32 → n % 2 ^ 32 ≤ int_size n
unfolding int_size
int_size_large n large = ground arith

int_size_small : (n : ℕ) → n % 2 ^ 32 < 2 ^ 31 → int_size n ≡ n % 2 ^ 32
unfolding int_size
int_size_small n small = ground arith

-- The body of a payload of `n` bytes, by way of a buffer of `size` bytes, less than 2^31: the length
-- is taken modulo 2^32, and if it is more than the buffer has then, that overflows. Otherwise the
-- body is the payload up to its first NUL within this length, unless that fills the whole buffer,
-- which then has no NUL at its end. Without a payload, a null pointer is followed.
pub copy_body_lem :
    (size n : ℕ) (source : Text)
    → size < 2 ^ 31
    → Copies size (n % 2 ^ 32) source (copy_body size (some source) n)
      × (copy_body size none n ≡ fault null_pointer)
unfolding copy_body
copy_body_lem size n source small = (
  elim (dec_lt (n % 2 ^ 32) (2 ^ 31)) [
    | yes narrow ↦ rw (int_size_small n narrow) (copy-Copies size (n % 2 ^ 32) source)
    | no wide ↦ inl (
      omega arith,
      rw
          (strncpy_overflows size (int_size n) source
            (omega (arith, int_size_large n (omega arith))))
          refl,
    )
  ],
  refl,
)
