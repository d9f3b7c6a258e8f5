-- ===== src/Producer/Threads/Steps.antt =====
-- Every step of any of the threads keeps what holds at each point.
use kafka_client.Base.{
  Option-cases, inl, inr, ℕ, if◌then◌else◌, some, Bool, ◌≡◌, refl, sym, true, false, some, List, [],
  ◌∷◌, ◌++◌, All, ◌≢◌, if-elim,
}
use mathlib.Core.Path.{subst}
use kafka_client.Ownership.{Live}
use kafka_client.Base.Int.{ℤ}
use kafka_client.Kafka.{poll, Env, Trace, alive, created, destroyed, needed}
use kafka_client.Producer.State.{KafkaProducer}
use kafka_client.Producer.Threads.{
  Point, entered, asking, emptying, stopping, waiting, deleting, freeing, returned, gone, Place,
  testing, calling, exited, polling, Threads, Next, waits, faults, next, thread_next, close_next,
  Step, by_closer, by_poller, by_other, Reach, start, later,
}
use kafka_client.Producer.Threads.Closer.{close_at-Inv}
use kafka_client.Producer.Threads.Invariant.{
  Opened, PollsOnly, Goes, opened, stopped, object_at, exists_at, state, Kept, Polls, Inv,
  Inv-state, Stands, Stands-neutral,
}

Goes-map :
    {A : Type 0} (P Q : A → Type 0) (n : Next A) → ((a : A) → P a → Q a) → Goes P n → Goes Q n
Goes-map P Q waits f g = tt
Goes-map P Q faults f g = g
Goes-map P Q (next a) f g = f a g

pub Goes-next : {A : Type 0} (P : A → Type 0) (n : Next A) (a : A) → n ≡ next a → Goes P n → P a
Goes-next P n a e g = subst (Goes P) e g

pub Goes-defined : {A : Type 0} (P : A → Type 0) (n : Next A) → Goes P n → n ≢ faults
Goes-defined P n g e = subst (Goes P) e g

pub next-injective : {A : Type 0} {a b : A} → next a ≡ next b → a ≡ b
next-injective e = cc

-- What a step of a polling thread has been, where there was one.
pub data Moved (p : KafkaProducer) (tr : Trace) : Place → Place → Trace → Type 0 where
  tested : Moved p tr testing (if p.event_poll.run then calling else exited) tr
  called :
      (g : ℕ)
      → p.event_poll.producer ≡ some g
      → Moved p tr calling (polling g p.event_poll.time_out) tr
  answered : (g : ℕ) (t : ℤ) → Moved p tr (polling g t) testing (poll g t ∷ tr)

abbrev MovedTo : KafkaProducer → Trace → Place → Place × Trace → Type 0
MovedTo p tr o r = Moved p tr o r.0 r.1

pub thread_next-Moved :
    (env : Env) (o q : Place) (p : KafkaProducer) (e : Bool) (tr tr' : Trace)
    → thread_next env o p e tr ≡ next (q, tr')
    → Moved p tr o q tr'
unfolding thread_next
thread_next-Moved env testing q p true tr tr' n =
    subst (MovedTo p tr testing) (next-injective n) tested
thread_next-Moved env testing q p false tr tr' n = absurd (cc)
thread_next-Moved env calling q p true tr tr' n = elim (Option-cases p.event_poll.producer) [
  | inl missing ↦ absurd (nothing_next (rw missing at n))
  | inr (g, found) ↦ subst (MovedTo p tr calling) (next-injective (rw found at n)) (called g found)
]
  where
    nothing_next : {a : Place × Trace} → faults ≡ next a → ⊥
    nothing_next m = cc
thread_next-Moved env calling q p false tr tr' n = absurd (cc)
thread_next-Moved env (polling g t) q p e tr tr' n =
    subst (MovedTo p tr (polling g t)) (next-injective n) (answered g t)
thread_next-Moved env exited q p e tr tr' n = absurd (cc)

pub exited_waits :
    (env : Env) (o : Place) (p : KafkaProducer) (e : Bool) (tr : Trace) (r : Place × Trace)
    → o ≡ exited
    → thread_next env o p e tr ≢ next r
unfolding thread_next
exited_waits env o p e tr r out = subst (λ o. thread_next env o p e tr ≢ next r) (sym out) (λ f. cc)

pub left_at :
    (before after : List Place) (o : Place)
    → All (λ o. o ≡ exited) (before ++ o ∷ after)
    → o ≡ exited
left_at [] after o left = left.0
left_at (b ∷ before) after o left = left_at before after o left.1

module _ (k : Opened) where
  abbrev Own : KafkaProducer → Place × Trace → Type 0
  Own q r = Stands k q (λ j. false) r.1 × PollsOnly k.object r.0

  abbrev Kind : Point → List Place → Place × Trace → Type 0
  Kind q others r = Inv k (state k q r.1 r.0 others)

  -- A step of the polling thread while the producer exists.
  polled :
      (env : Env) (q : KafkaProducer) (o : Place) (tr : Trace)
      → q.producer ≡ some k.object
      → q.event_poll.producer ≡ some k.object
      → Own q (o, tr)
      → Goes (Own q) (thread_next env o q true tr)
  unfolding thread_next created destroyed needed
  polled env q testing tr has same (stands, only) =
      (stands, if-elim (PollsOnly k.object) q.event_poll.run tt tt)
  polled env q calling tr has same (stands, only) = rw same (stands, refl)
  polled env q (polling g t) tr has same (stands, only) =
      (Stands-neutral k q (λ j. false) _ tr refl refl (rw only lives, tt) stands, tt)
    where
      lives : alive k.object tr ≡ true
      lives = subst (λ o. Live o tr) has (stands.0).live_o
  polled env q exited tr has same own = tt

  thread_at-Inv :
      (env : Env) (q : Point) (tr : Trace) (o : Place) (others : List Place)
      → Kept k q tr
      → Polls k q o
      → All (λ o. o ≡ exited) others
      → Goes (Kind q others) (thread_next env o (object_at k q) (exists_at k q) tr)
  unfolding thread_next
  thread_at-Inv env entered tr o others kept polls left =
      Goes-map (Own (opened k)) (Kind entered others) _ (λ r g. (refl, refl, g.0, g.1, left))
        (polled env (opened k) o tr refl refl (kept, polls))
  thread_at-Inv env asking tr o others kept polls left =
      Goes-map (Own (opened k)) (Kind asking others) _ (λ r g. (refl, refl, g.0, g.1, left))
        (polled env (opened k) o tr refl refl (kept, polls))
  thread_at-Inv env emptying tr o others kept polls left =
      Goes-map (Own (opened k)) (Kind emptying others) _ (λ r g. (refl, refl, g.0, g.1, left))
        (polled env (opened k) o tr refl refl (kept, polls))
  thread_at-Inv env stopping tr o others kept polls left =
      Goes-map (Own (opened k)) (Kind stopping others) _ (λ r g. (refl, refl, g.0, g.1, left))
        (polled env (opened k) o tr refl refl (kept, polls))
  thread_at-Inv env waiting tr o others kept polls left =
      Goes-map (Own (stopped k)) (Kind waiting others) _ (λ r g. (refl, refl, g.0, g.1, left))
        (polled env (stopped k) o tr refl refl (kept, polls))
  thread_at-Inv env deleting tr o others kept polls left = rw polls tt
  thread_at-Inv env freeing tr o others kept polls left = rw polls tt
  thread_at-Inv env returned tr o others kept polls left = rw polls tt
  thread_at-Inv env gone tr o others kept polls left = rw polls tt

  pub close_next-Inv :
      (env : Env) (s : Threads)
      → k.client.polling_thread_id ≢ 0
      → Inv k s
      → Goes (Inv k) (close_next env s)
  close_next-Inv env s id (same, here, kept, polls, left) =
      subst (λ s. Goes (Inv k) (close_next env s)) (Inv-state k s same here)
        (close_at-Inv k env s.point s.trace s.poller s.others id kept polls left)

  pub thread_next-Inv :
      (env : Env) (s : Threads)
      → Inv k s
      → Goes
          (λ (r : Place × Trace). Inv k (record s { poller = r.0; trace = r.1 }))
          (thread_next env s.poller s.client s.exists s.trace)
  thread_next-Inv env s (same, here, kept, polls, left) =
      subst
        (λ (s : Threads).
          Goes (λ (r : Place × Trace). Inv k (record s { poller = r.0; trace = r.1 }))
            (thread_next env s.poller s.client s.exists s.trace))
        (Inv-state k s same here)
        (thread_at-Inv env s.point s.trace s.poller s.others kept polls left)

  Step-Inv :
      (env : Env) (s t : Threads)
      → k.client.polling_thread_id ≢ 0
      → Step env s t
      → Inv k s
      → Inv k t
  unfolding thread_next
  Step-Inv env s t id (by_closer e) inv = Goes-next (Inv k) _ t e (close_next-Inv env s id inv)
  Step-Inv env s t id (by_poller q tr e) inv =
      Goes-next (λ (r : Place × Trace). Inv k (record s { poller = r.0; trace = r.1 })) _ (q, tr) e
        (thread_next-Inv env s inv)
  Step-Inv env s t id (by_other before after o q tr at e) (same, here, kept, polls, left) = absurd (
      exited_waits env o s.client s.exists s.trace (q, tr)
        (left_at before after o (subst (All (λ o. o ≡ exited)) at left)) e)

  pub Reach-Inv :
      (env : Env) {s t : Threads}
      → k.client.polling_thread_id ≢ 0
      → Reach env s t
      → Inv k s
      → Inv k t
  Reach-Inv env id start inv = inv
  Reach-Inv env id (later {t} {u} r st) inv = Step-Inv env t u id st (Reach-Inv env id r inv)
