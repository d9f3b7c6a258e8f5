-- ===== src/Producer/Headers/Written.antt =====
-- Which headers a message gets, and when the buffers of `_createKafkaHeader` overflow.
use kafka_client.Base.{
  ap, sym, ◌∙◌, ℕ, suc, ◌^◌, ◌≤◌, ◌<◌, ◌≡◌, ◌⊎◌, inl, inr, true, List, [], ◌∷◌, ◌++◌, length, arith,
  lt→ltb,
}
use mathlib.Core.Path.{subst}
use mathlib.Core.List.{append-nil, append_assoc}
use native.Mathlib.Decide.{dec_lt}
use kafka_client.Base.Int.{ℤ, pos, negsuc}
use kafka_client.Base.Text.{Text}
use kafka_client.Base.Decimal.{show_nat, show_int, length-show_nat_le, le-length-show_nat}
use kafka_client.Kafka.{headers_add, Env, Trace, TimeVal, is_no_error, ok, fault, buffer_overflow}
use kafka_client.KafkaMessage.{KafkaMessage}
use kafka_client.Producer.Clock.{milliseconds}
use kafka_client.Producer.Clock.Widths.{length-show-milliseconds}
use kafka_client.Producer.Uuid.{get_random_uuid}
use kafka_client.Producer.Headers.{
  headers_message_id, headers_timestamp, headers_command, headers_message_version,
  headers_content_type, headers_user_agent, sprintf, add, create_kafka_header,
}

-- From -999 to 9999.
abbrev pub Fits5 : ℤ → Type 0
Fits5 (pos n) = n < 10000
Fits5 (negsuc n) = n < 999

sprintf-fits : (size : ℕ) (t : Text) → length t < size → sprintf size t ≡ ok t
unfolding sprintf
sprintf-fits size t h = rw (lt→ltb (length t) size h)

sprintf_overflows : (size : ℕ) (t : Text) → size ≤ length t → sprintf size t ≡ fault buffer_overflow
unfolding sprintf
sprintf_overflows size t h = ground arith

-- `%d` and its NUL fit a buffer of 5 exactly for these numbers.
pub sprintf_5 :
    (z : ℤ)
    → (Fits5 z × (sprintf 5 (show_int z) ≡ ok (show_int z)))
      ⊎ (¬ Fits5 z × (sprintf 5 (show_int z) ≡ fault buffer_overflow))
unfolding show_int
sprintf_5 (pos n) = elim (dec_lt n 10000) [
  | yes h ↦ inl (h, sprintf-fits 5 _ (omega (arith, length-show_nat_le 3 n h)))
  | no h ↦ inr (h, sprintf_overflows 5 _ (omega (arith, le-length-show_nat 4 n (omega arith))))
]
sprintf_5 (negsuc n) = elim (dec_lt n 999) [
  | yes h ↦ inl (h, sprintf-fits 5 _ (omega (arith, length-show_nat_le 2 (suc n) (omega arith))))
  | no h ↦
      inr (h, sprintf_overflows 5 _ (omega (arith, le-length-show_nat 3 (suc n) (omega arith))))
]

-- The six headers of a message, in the order of the code.
abbrev pub header_list : Text → TimeVal → KafkaMessage → Text → List (Text × Text)
header_list id t m agent =
    (headers_message_id, id)
    ∷ (headers_timestamp, show_nat (milliseconds t))
    ∷ (headers_command, m.command)
    ∷ (headers_message_version, show_int m.version)
    ∷ (headers_content_type, m.content_type)
    ∷ (headers_user_agent, agent)
    ∷ []

module _ (env : Env) (object : ℕ) where
  -- The calls that add headers, all accepted.
  abbrev pub all_added :
      List (Text × Text) → List (Text × Text) × Trace → List (Text × Text) × Trace
  all_added [] s = s
  all_added ((k, v) ∷ l) s = all_added l (add env object k v s)

  -- At a time whose milliseconds a `long long` holds, `_createKafkaHeader` never answers `false`:
  -- it adds the six headers in order, or overflows the buffer of the version, exactly for a
  -- version below -999 or above 9999.
  pub create_kafka_header_lem :
      (m : KafkaMessage) (agent : Text) (tr : Trace)
      → milliseconds (env.gettimeofday tr 0) < 2 ^ 63
      → let t = env.gettimeofday tr 0 in
        let id = get_random_uuid env (env.gettimeofday tr 1) in
        let s = all_added (header_list id t m agent) ([], tr) in
        (Fits5 m.version × (create_kafka_header env object m agent tr ≡ ok (true, id, s.0, s.1)))
        ⊎ (¬ Fits5 m.version × (create_kafka_header env object m agent tr ≡ fault buffer_overflow))
  unfolding create_kafka_header
  create_kafka_header_lem m agent tr h = elim (sprintf_5 m.version) [
    | inl (small, e) ↦ inl (small, rw (stamp_fits, e))
    | inr (large, e) ↦ inr (large, rw (stamp_fits, e))
  ]
    where
      stamp_fits :
          sprintf 20 (show_nat (milliseconds (env.gettimeofday tr 0)))
          ≡ ok (show_nat (milliseconds (env.gettimeofday tr 0)))
      stamp_fits = sprintf-fits 20 _ (length-show-milliseconds (env.gettimeofday tr 0) h)

  -- The library accepts every header.
  abbrev pub AllAdded : List (Text × Text) → List (Text × Text) × Trace → Type 0
  AllAdded [] s = Unit
  AllAdded ((k, v) ∷ l) s =
      (is_no_error (env.headers_add s.1 k v) ≡ true) × AllAdded l (add env object k v s)

  add-accepted :
      (k v : Text) (hs : List (Text × Text)) (calls : Trace)
      → is_no_error (env.headers_add calls k v) ≡ true
      → add env object k v (hs, calls)
        ≡ (hs ++ ((k, v) ∷ []), headers_add object k v (env.headers_add calls k v) ∷ calls)
  unfolding add
  add-accepted k v hs calls h = rw h

  pub all_added-AllAdded :
      (l hs : List (Text × Text)) (calls : Trace)
      → AllAdded l (hs, calls)
      → (all_added l (hs, calls)).0 ≡ hs ++ l
  all_added-AllAdded [] hs calls h = sym (append-nil hs)
  all_added-AllAdded ((k, v) ∷ l) hs calls h =
      ap (λ s. (all_added l s).0) step
      ∙ all_added-AllAdded l (hs ++ ((k, v) ∷ [])) _ (subst (AllAdded l) step h.1)
      ∙ append_assoc hs ((k, v) ∷ []) l
    where
      step :
          add env object k v (hs, calls)
          ≡ (hs ++ ((k, v) ∷ []), headers_add object k v (env.headers_add calls k v) ∷ calls)
      step = add-accepted k v hs calls h.0
