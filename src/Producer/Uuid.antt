-- ===== src/Producer/Uuid.antt =====
-- `_getRandomUUID`
pub mod Shape
use kafka_client.Base.{ℕ, ◌+◌, ◌*◌, ◌%◌, ◌^◌, [], ◌∷◌, bit_and, ◌==◌, if◌then◌else◌, get_or}
use kafka_client.Base.Text.{Text, codes, c_string}
use kafka_client.Kafka.{Env, TimeVal}

-- `szTemp` and `szHex`
abbrev pub template : Text
template = codes "xxxxxxxx-xxxx-4xxx-yxxx-xxxxxxxxxxxx"

abbrev pub hex : Text
hex = codes "0123456789ABCDEF-"

-- The seed is an `unsigned int`.
abbrev pub seed_of : TimeVal → ℕ
seed_of t = (t.sec * 1000000 + t.usec) % 2 ^ 32

-- The switch on `szTemp[i]`.
unfoldable pub uuid_char : ℕ → ℕ → ℕ
uuid_char c r =
    if c == b'x'
    then get_or hex r 0
    else if c == b'y'
    then get_or hex (bit_and r 11) 0
    else if c == b'-'
    then b'-'
    else if c == b'4'
    then b'4'
    else b' '

module _ (env : Env) where
  -- The loop over the template; in the last round, at its NUL, `rand_r` is drawn once more.
  unfoldable pub fill : Text → ℕ → Text
  unfolding uuid_char
  fill [] seed = 0 ∷ []
  fill (c ∷ t) seed =
      let (drawn, seed') = env.rand_r seed in uuid_char c (drawn % 16) ∷ fill t seed'

  -- `std::string(UUID)`
  unfoldable pub get_random_uuid : TimeVal → Text
  get_random_uuid t = c_string (fill template (seed_of t))
