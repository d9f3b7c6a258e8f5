-- ===== src/Consumer/Body.antt =====
-- The buffer through which `consume` copies the payload: `memset`, `strncpy`, and the C string
-- that is read back from it.
pub mod Copied
use kafka_client.Base.{
  ℕ, zero, suc, ◌-◌, ◌*◌, Bool, Option, none, some, List, [], ◌∷◌, ◌++◌, ◌==◌, leb, if◌then◌else◌,
  length, take, drop, replicate, ltb, ◌^◌, ◌%◌, ◌+◌,
}
use kafka_client.Base.Text.{Text, c_string}
use kafka_client.Kafka.{Result, ok, fault, null_pointer, buffer_overflow, unterminated, ◌>>=◌}

-- `strncpy(buffer, source, n)`: the source up to its first NUL, then NULs, `n` bytes in all.
unfoldable pub strncpy : Text → Text → ℕ → Result Text
strncpy buffer source n =
    let t = c_string (take n source) in
    if leb n (length buffer)
    then ok (t ++ (replicate (n - length t) 0 ++ drop n buffer))
    else fault buffer_overflow

-- `std::string(buffer)`: reading on past a buffer that holds no NUL is undefined.
unfoldable pub read_buffer : Text → Result Text
read_buffer [] = fault unterminated
read_buffer (c ∷ t) = let rest = read_buffer t in if c == 0 then ok [] else rest >>= λ s. ok (c ∷ s)

-- `static_cast<const char *>(message->payload())`: `strncpy` from a null pointer is undefined, also
-- for a length of 0.
abbrev pub source_of : Option Text → Result Text
source_of (some t) = ok t
source_of none = fault null_pointer

-- `static_cast<int>(message->len())`, which `strncpy` takes as a `size_t` again: 32 bits, with the
-- sign continued to 64.
unfoldable pub int_size : ℕ → ℕ
int_size n = let k = n % 2 ^ 32 in if ltb k (2 ^ 31) then k else 2 ^ 64 - 2 ^ 32 + k

-- The body, by way of a buffer of `size` bytes.
unfoldable pub copy_body : ℕ → Option Text → ℕ → Result Text
copy_body size payload len = do
  source ← source_of payload
  buffer ← strncpy (replicate size 0) source (int_size len)
  read_buffer buffer

-- `char receivedMsgBody[1024 * 1024]`
abbrev pub body_size : ℕ
body_size = 1024 * 1024
