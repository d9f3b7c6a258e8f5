-- ===== src/Base/Decimal.antt =====
-- The conversions `%d`, `%lld`, `%04d` and `%02d` of `sprintf`, and reading the digits back.
use kafka_client.Base.{
  ℕ, zero, suc, ◌+◌, ◌-◌, ◌*◌, ◌/◌, ◌%◌, ◌^◌, ◌≤◌, ◌<◌, ◌≡◌, refl, [], ◌∷◌, ◌++◌, arith, ltb,
  if◌then◌else◌, length, length-append, replicate, Bool-cases, inl, inr, ltb→lt, ◌≢◌, All-append,
  length-replicate,
}
use native.Mathlib.Nat.{pow-suc, one-le-pow}
use kafka_client.Base.Int.{ℤ, pos, negsuc}
use kafka_client.Base.Text.{Text, IsCString}

-- The digits of `n`, the last one split off first.
digits_of : ℕ → ℕ → Text
digits_of zero n = []
digits_of (suc fuel) n =
    let front = digits_of fuel (n / 10) in
    if ltb n 10 then (48 + n) ∷ [] else front ++ ((48 + n % 10) ∷ [])

-- `n` has at most `n + 1` digits.
unfoldable pub show_nat : ℕ → Text
unfolding digits_of
show_nat n = digits_of (suc n) n

-- `%d` and `%lld`.
unfoldable pub show_int : ℤ → Text
unfolding show_nat
show_int (pos n) = show_nat n
show_int (negsuc n) = b'-' ∷ show_nat (suc n)

-- `%0wd` of a number that is not negative.
unfoldable pub show_padded : ℕ → ℕ → Text
unfolding show_nat
show_padded w n = let t = show_nat n in replicate (w - length t) b'0' ++ t

length-digits_of_le : (fuel k n : ℕ) → n < 10 ^ suc k → length (digits_of fuel n) ≤ suc k
unfolding digits_of
length-digits_of_le zero k n h = omega arith
length-digits_of_le (suc fuel) zero n h = ground (arith, pow-suc 10 0)
length-digits_of_le (suc fuel) (suc k) n h = ground (
  arith,
  length-digits_of_le fuel k (n / 10) (omega (arith, pow-suc 10 (suc k))),
  length-append (digits_of fuel (n / 10)) ((48 + n % 10) ∷ []),
)

le-length-digits_of : (fuel k n : ℕ) → n < fuel → 10 ^ k ≤ n → suc k ≤ length (digits_of fuel n)
unfolding digits_of
le-length-digits_of zero k n f h = absurd (omega arith)
le-length-digits_of (suc fuel) zero n f h =
    ground (arith, length-append (digits_of fuel (n / 10)) ((48 + n % 10) ∷ []))
le-length-digits_of (suc fuel) (suc k) n f h = elim (Bool-cases (ltb n 10)) [
  | inl small ↦
      absurd (omega (arith, pow-suc 10 k, one-le-pow k 10 (omega arith), ltb→lt n 10 small))
  | inr big ↦ rw big (
      omega (
        arith,
        pow-suc 10 k,
        length-append (digits_of fuel (n / 10)) ((48 + n % 10) ∷ []),
        le-length-digits_of fuel k (n / 10) (ground arith) (omega (arith, pow-suc 10 k)),
      ))
]

-- The number that decimal digits stand for, as `strtoul` reads them.
read_from : ℕ → Text → ℕ
read_from acc [] = acc
read_from acc (c ∷ t) = read_from (acc * 10 + (c - 48)) t

unfoldable pub read_nat : Text → ℕ
unfolding read_from
read_nat = read_from 0

read_from-append : (acc : ℕ) (t u : Text) → read_from acc (t ++ u) ≡ read_from (read_from acc t) u
unfolding read_from
read_from-append acc [] u = refl
read_from-append acc (c ∷ t) u = read_from-append (acc * 10 + (c - 48)) t u

read_from-digits_of : (fuel n : ℕ) → n < fuel → read_from 0 (digits_of fuel n) ≡ n
unfolding digits_of read_from
read_from-digits_of zero n h = absurd (omega arith)
read_from-digits_of (suc fuel) n h = ground (
  arith,
  read_from-append 0 (digits_of fuel (n / 10)) ((48 + n % 10) ∷ []),
  read_from-digits_of fuel (n / 10),
)

-- Reading undoes printing.
pub read_nat-show_nat : (n : ℕ) → read_nat (show_nat n) ≡ n
unfolding read_nat show_nat
read_nat-show_nat n = read_from-digits_of (suc n) n (omega arith)

digits_of-IsCString : (fuel n : ℕ) → IsCString (digits_of fuel n)
unfolding digits_of
digits_of-IsCString zero n = tt
digits_of-IsCString (suc fuel) n = elim (Bool-cases (ltb n 10)) [
  | inl small ↦ rw small (omega arith, tt)
  | inr big ↦ rw big (
      All-append (λ c. c ≢ 0) (digits_of fuel (n / 10)) ((48 + n % 10) ∷ [])
        (digits_of-IsCString fuel (n / 10)) (omega arith, tt))
]

pub show_nat-IsCString : (n : ℕ) → IsCString (show_nat n)
unfolding show_nat
show_nat-IsCString n = digits_of-IsCString (suc n) n

pub show_int-IsCString : (z : ℤ) → IsCString (show_int z)
unfolding show_int
show_int-IsCString (pos n) = show_nat-IsCString n
show_int-IsCString (negsuc n) = (omega arith, show_nat-IsCString (suc n))

pub length-show_nat_le : (k n : ℕ) → n < 10 ^ suc k → length (show_nat n) ≤ suc k
unfolding show_nat
length-show_nat_le k n h = length-digits_of_le (suc n) k n h

pub le-length-show_nat : (k n : ℕ) → 10 ^ k ≤ n → suc k ≤ length (show_nat n)
unfolding show_nat
le-length-show_nat k n h = le-length-digits_of (suc n) k n (omega arith) h

pub length-show_nat_pos : (n : ℕ) → 1 ≤ length (show_nat n)
unfolding show_nat digits_of
length-show_nat_pos n = ground (arith, length-append (digits_of n (n / 10)) ((48 + n % 10) ∷ []))

-- A number of at most `w` digits is padded to exactly `w`.
pub length-show_padded : (k n : ℕ) → n < 10 ^ suc k → length (show_padded (suc k) n) ≡ suc k
unfolding show_padded
length-show_padded k n h = omega (
  arith,
  length-append (replicate (suc k - length (show_nat n)) 48) (show_nat n),
  length-replicate {A = ℕ} (suc k - length (show_nat n)) 48,
  length-show_nat_le k n h,
)
