-- ===== src/Producer/Send/Owned.antt =====
-- Sending keeps what the producer owns.
use kafka_client.Base.{
  ℕ, ◌≡◌, refl, ◌∙◌, ◌⊎◌, inl, inr, Bool, true, Bool-cases, Option, none, some, List, [], ◌∷◌,
  arith, sym, ap, ◌^◌, ◌<◌, false,
}
use mathlib.Core.Path.{subst}
use kafka_client.Base.Text.{Text}
use kafka_client.Base.Decimal.{show_nat, show_int}
use kafka_client.Kafka.{
  fault-ok, Env, Trace, fresh, headers_create, is_no_error, ok, fault, created, destroyed, needed,
  alive, ok-injective, buffer_overflow, Produced, Fault, TimeVal, >>=-eq-ok,
}
use kafka_client.Ownership.{Holds, Apart, Holds-neutral, alive-neutral}
use kafka_client.Ownership.Created.{Holds-new_other, alive-created_self}
use kafka_client.Ownership.Destroyed.{Holds-deleted_other}
use kafka_client.KafkaMessage.{KafkaMessage}
use kafka_client.Producer.State.{KafkaProducer}
use kafka_client.Producer.Send.Outcome.{prepared, send_parts}
use kafka_client.Producer.Clock.{milliseconds}
use kafka_client.Producer.Uuid.{get_random_uuid}
use kafka_client.Producer.Headers.{sprintf, add, create_kafka_header}
use kafka_client.Producer.Headers.Written.{header_list, all_added}
use kafka_client.Producer.Send.{produced, produce_with, send, produce_to, after_headers}

-- What is owned, and a headers object beside it.
record HoldsWith (object : ℕ) (o c s : Option ℕ) (tr : Trace) : Type 0 where
  held : Holds o c s tr
  live : alive object tr ≡ true
  apart_o : Apart (some object) o
  apart_c : Apart (some object) c
  apart_s : Apart (some object) s

sprintf-cases : (n : ℕ) (t : Text) → (sprintf n t ≡ ok t) ⊎ (sprintf n t ≡ fault buffer_overflow)
unfolding sprintf
sprintf-cases n t = ground arith

module _ (env : Env) (object : ℕ) where
  add-HoldsWith :
      {o c s : Option ℕ} (k v : Text) (a : List (Text × Text) × Trace)
      → HoldsWith object o c s a.1
      → HoldsWith object o c s (add env object k v a).1
  unfolding add created destroyed needed
  add-HoldsWith k v (hs, tr) h = record {
    held = Holds-neutral _ tr refl refl (h.live, tt) h.held;
    live = alive-neutral _ object tr refl refl ∙ h.live;
    apart_o = h.apart_o;
    apart_c = h.apart_c;
    apart_s = h.apart_s;
  }

  all_added-HoldsWith :
      {o c s : Option ℕ} (l : List (Text × Text)) (a : List (Text × Text) × Trace)
      → HoldsWith object o c s a.1
      → HoldsWith object o c s (all_added env object l a).1
  all_added-HoldsWith [] a h = h
  all_added-HoldsWith ((k, v) ∷ l) a h = all_added-HoldsWith l _ (add-HoldsWith k v a h)

  create_kafka_header-HoldsWith :
      {o c s : Option ℕ} (m : KafkaMessage) (agent : Text) (tr tr' : Trace) (b : Bool) (id : Text)
      (hs : List (Text × Text))
      → HoldsWith object o c s tr
      → create_kafka_header env object m agent tr ≡ ok (b, id, hs, tr')
      → (b ≡ true) × HoldsWith object o c s tr'
  unfolding create_kafka_header
  create_kafka_header-HoldsWith {o} {c} {s} m agent tr tr' b id hs h e =
      elim (sprintf-cases 20 (show_nat (milliseconds t))) [
        | inr overflow ↦ impossible (rw overflow at e)
        | inl stamp ↦ elim (sprintf-cases 5 (show_int m.version)) [
          | inr overflow ↦ impossible (rw (stamp, overflow) at e)
          | inl version ↦ finish (ok-injective (rw (stamp, version) at e))
        ]
      ]
    where
      t : TimeVal
      t = env.gettimeofday tr 0

      added : List (Text × Text) × Trace
      added =
          all_added env object (header_list (get_random_uuid env (env.gettimeofday tr 1)) t m agent)
            ([], tr)

      impossible : {A B : Type 0} {f : Fault} {a : A} → fault f ≡ ok a → B
      impossible q = cc

      finish :
          ◌≡◌ {A = Bool × Text × List (Text × Text) × Trace}
            (true, get_random_uuid env (env.gettimeofday tr 1), added.0, added.1)
            (b, id, hs, tr')
          → (b ≡ true) × HoldsWith object o c s tr'
      finish q = (
        sym (ap (λ r. r.0) q),
        subst (HoldsWith object o c s) (ap (λ r. r.3) q) (
            all_added-HoldsWith
              (header_list (get_random_uuid env (env.gettimeofday tr 1)) t m agent) ([], tr) h),
      )

  produce_with-Holds :
      {c s : Option ℕ} (m : KafkaMessage) (topic : Text) (hs : List (Text × Text)) (h : ℕ)
      (tr : Trace)
      → HoldsWith object (some h) c s tr
      → Holds (some h) c s (produce_with env m topic object hs h tr).1
  unfolding produce_with created destroyed needed
  produce_with-Holds {c} {s} m topic hs h tr w =
      elim (Bool-cases (is_no_error (env.produce tr r))) [
        | inl sent ↦ rw sent (
            Holds-deleted_other _ object tr (rw sent) refl (w.held.live_o, (w.live, tt)) w.apart_o
              w.apart_c w.apart_s w.held)
        | inr failed ↦ rw failed (
            Holds-deleted_other _ object _ refl refl
              (alive-neutral _ object tr refl (rw failed) ∙ w.live, tt) w.apart_o w.apart_c
              w.apart_s (Holds-neutral _ tr refl (rw failed) (w.held.live_o, (w.live, tt)) w.held))
      ]
    where
      r : Produced
      r = produced m topic object hs

produce_to-Holds :
    {c s : Option ℕ} (env : Env) (o : Option ℕ) (m : KafkaMessage) (topic : Text) (object : ℕ)
    (hs : List (Text × Text)) (b : Bool) (tr tr' : Trace)
    → HoldsWith object o c s tr
    → produce_to env o m topic object hs tr ≡ ok (b, tr')
    → Holds o c s tr'
produce_to-Holds env none m topic object hs b tr tr' w e = absurd (cc)
produce_to-Holds {c} {s} env (some h) m topic object hs b tr tr' w e =
    subst (Holds (some h) c s) (ap (λ r. r.1) (ok-injective e))
      (produce_with-Holds env object m topic hs h tr w)

-- A `send` that returns keeps what the producer owns: the headers object is gone by then, and no
-- call used an object that was gone.
pub send-Holds :
    {c s : Option ℕ} (env : Env) (p : KafkaProducer) (m : KafkaMessage) (b : Bool) (tr tr' : Trace)
    → Holds p.producer c s tr
    → send env p m tr ≡ ok (b, tr')
    → Holds p.producer c s tr'
unfolding send created destroyed needed
send-Holds {c} {s} env p m b tr tr' held e =
    let ((made, id, hs, tr₂), headers, rest) =
      >>=-eq-ok (create_kafka_header env (fresh tr) m p.user_agent tr₁)
        (after_headers env p m (fresh tr)) e in
    let (yes', kept) =
      create_kafka_header-HoldsWith env (fresh tr) m p.user_agent tr₁ tr₂ made id hs started
        headers in
    produce_to-Holds env p.producer m p.topic (fresh tr) hs b tr₂ tr' kept (rw yes' at rest)
  where
    tr₁ : Trace
    tr₁ = headers_create (fresh tr) ∷ tr

    new :
        Holds p.producer c s tr₁
        × Apart (some (fresh tr)) p.producer
        × Apart (some (fresh tr)) c
        × Apart (some (fresh tr)) s
    new = Holds-new_other _ tr refl refl tt held

    started : HoldsWith (fresh tr) p.producer c s tr₁
    started = record {
      held = new.0;
      live = alive-created_self _ tr refl refl;
      apart_o = new.1;
      apart_c = new.2;
      apart_s = new.3;
    }

produce_with-dead :
    (env : Env) (m : KafkaMessage) (topic : Text) (object : ℕ) (hs : List (Text × Text)) (h : ℕ)
    (tr : Trace)
    → alive object (produce_with env m topic object hs h tr).1 ≡ false
unfolding produce_with alive
produce_with-dead env m topic object hs h tr = ground arith

-- At a time whose milliseconds a `long long` holds: whenever `send` of a producer that owns what
-- it points to returns, the headers object that it created is gone, on success and on failure;
-- what the producer owns exists still, and no call has used an object that was gone.
pub send-deletes :
    {c s : Option ℕ} (env : Env) (p : KafkaProducer) (m : KafkaMessage) (b : Bool) (tr tr' : Trace)
    → milliseconds (env.gettimeofday (headers_create (fresh tr) ∷ tr) 0) < 2 ^ 63
    → Holds p.producer c s tr
    → send env p m tr ≡ ok (b, tr')
    → (alive (fresh tr) tr' ≡ false) × Holds p.producer c s tr'
send-deletes {c} {s} env p m b tr tr' clock held e = (
  elim (send_parts env p m tr clock) [
    | inl (large, f) ↦ absurd (fault-ok (sym f ∙ e))
    | inr (inl (fits, missing, f)) ↦ absurd (fault-ok (sym f ∙ e))
    | inr (inr (fits, h, found, f)) ↦
        ap (λ (r : Bool × Trace). alive (fresh tr) r.1) (ok-injective (sym e ∙ f))
        ∙ produce_with-dead env m p.topic (fresh tr) (prepared env p m tr).0 h
            (prepared env p m tr).1
  ],
  send-Holds {c = c} {s = s} env p m b tr tr' held e,
)
