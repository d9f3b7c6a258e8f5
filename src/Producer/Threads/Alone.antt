-- ===== src/Producer/Threads/Alone.antt =====
-- `closeKafka` in steps where no polling thread runs.
use kafka_client.Base.{
  ◌≡◌, refl, sym, Bool, Option, none, some, List, ◌∷◌, All, if-elim, Option-cases, inl, inr,
  is_some, not, ◌&&◌, ltb, ◌==◌, [], ℕ, false,
}
use mathlib.Core.Path.{subst}
use kafka_client.Base.Int.{pos}
use kafka_client.Kafka.{
  Env, Trace, created, destroyed, needed, poll, outq_len, thread_join, delete_conf,
}
use kafka_client.Ownership.{Holds, Holds-neutral, Live}
use kafka_client.Ownership.Destroyed.{Holds-deleted_object, Holds-deleted_configuration}
use kafka_client.Producer.State.{KafkaProducer}
use kafka_client.Producer.Threads.{
  Point, entered, asking, emptying, stopping, waiting, deleting, freeing, returned, gone, Place,
  exited, Threads, Next, waits, faults, next, close_at, ask, delete_if, free_if, Reach, start,
  later, by_closer, by_poller, by_other,
}
use kafka_client.Producer.Threads.Steps.{exited_waits, left_at}
use kafka_client.Producer.Threads.Schedule.{at}

-- What a step leads to, if it is one that is defined.
abbrev Leads : {A : Type 0} → (A → Type 0) → Next A → Type 0
Leads P waits = Unit
Leads P faults = Unit
Leads P (next t) = P t

Leads-next : {A : Type 0} (P : A → Type 0) (n : Next A) (a : A) → n ≡ next a → Leads P n → P a
Leads-next P n a e l = subst (Leads P) e l

module _ (s : Option ℕ) (p₀ : KafkaProducer) where
  abbrev Beside : Option ℕ → KafkaProducer → Trace → Type 0
  Beside o p tr =
      Holds o p.global_conf s tr × (p.producer ≡ o) × (p.producer_callback ≡ p₀.producer_callback)

  -- What the object points to and what stands beside it, at each point.
  abbrev Held : Point → KafkaProducer → Trace → Type 0
  Held gone p tr = Unit
  Held freeing p tr = Beside none p tr
  Held entered p tr = Beside p.producer p tr
  Held asking p tr = Beside p.producer p tr
  Held emptying p tr = Beside p.producer p tr
  Held stopping p tr = Beside p.producer p tr
  Held waiting p tr = Beside p.producer p tr
  Held deleting p tr = Beside p.producer p tr
  Held returned p tr = Beside p.producer p tr

  abbrev Alone : Threads → Type 0
  Alone t = Held t.point t.client t.trace × (t.poller ≡ exited) × All (λ o. o ≡ exited) t.others

  abbrev standing : Point → KafkaProducer → Trace → List Place → Bool → Threads
  standing q p tr others e = record {
    client = p;
    exists = e;
    trace = tr;
    point = q;
    poller = exited;
    others = others;
  }

  module _ (env : Env) (p : KafkaProducer) (tr : Trace) (others : List Place) (e : Bool)
      (left : All (λ o. o ≡ exited) others) where
    ask-Alone :
        (o : Option ℕ)
        → p.producer ≡ o
        → Beside p.producer p tr
        → Alone (ask env o (standing asking p tr others e))
    unfolding ask created destroyed needed
    ask-Alone none found held = (held, refl, left)
    ask-Alone (some h) found (held, same, callback) =
        let live : Live (some h) tr = subst (λ o. Live o tr) found held.live_o in
        let asked = Holds-neutral (outq_len h (env.outq_len tr)) tr refl refl (live, tt) held in
        (
          if-elim (λ q. Held q p (outq_len h (env.outq_len tr) ∷ tr)) (ltb 0 (env.outq_len tr))
              (asked, refl, callback) (asked, refl, callback),
          refl,
          left,
        )

    delete_if-Alone :
        (o : Option ℕ)
        → p.producer ≡ o
        → Beside p.producer p tr
        → Alone (delete_if env o (standing deleting p tr others e))
    unfolding delete_if created destroyed needed
    delete_if-Alone none found (held, same, callback) =
        ((subst (λ o. Holds o p.global_conf s tr) found held, found, callback), refl, left)
    delete_if-Alone (some h) found (held, same, callback) =
        let held' = subst (λ o. Holds o p.global_conf s tr) found held in
        (
          (Holds-deleted_object _ h tr refl refl (held'.live_o, tt) held', refl, callback),
          refl,
          left,
        )

    free_if-Alone :
        (c : Option ℕ)
        → p.global_conf ≡ c
        → Beside none p tr
        → Alone (free_if env c (standing freeing p tr others e))
    unfolding free_if created destroyed needed
    free_if-Alone none found (held, same, callback) =
        ((subst (λ o. Holds o p.global_conf s tr) (sym same) held, refl, callback), refl, left)
    free_if-Alone (some c) found (held, same, callback) =
        let held' = subst (λ g. Holds none g s tr) found held in
        (
          (
            subst (λ o. Holds o none s (delete_conf c ∷ tr)) (sym same)
                (Holds-deleted_configuration (delete_conf c) c tr refl refl (held'.live_c, tt)
                  held'),
            refl,
            callback,
          ),
          refl,
          left,
        )

    polled-Alone :
        (h : ℕ)
        → p.producer ≡ some h
        → Beside p.producer p tr
        → Alone (standing asking p (poll h (pos 500) ∷ tr) others e)
    unfolding created destroyed needed
    polled-Alone h found (held, same, callback) =
        let live : Live (some h) tr = subst (λ o. Live o tr) found held.live_o in
        (
          (Holds-neutral (poll h (pos 500)) tr refl refl (live, tt) held, refl, callback),
          refl,
          left,
        )

    close_at-Alone :
        (q : Point) → Held q p tr → Leads Alone (close_at env q (standing q p tr others e))
    unfolding close_at created destroyed needed
    close_at-Alone entered held = (
      if-elim (λ q. Held q p tr) (not (is_some p.producer) && not (is_some p.global_conf)) held
          held,
      refl,
      left,
    )
    close_at-Alone asking held = ask-Alone p.producer refl held
    close_at-Alone emptying held = elim (Option-cases p.producer) [
      | inl missing ↦ rw missing tt
      | inr (h, found) ↦ rw found (polled-Alone h found held)
    ]
    close_at-Alone stopping (held, same, callback) =
        if-elim (Leads Alone) p.event_poll.run
          (
            if-elim
                (λ q. Held q (record p { event_poll = record (p.event_poll) { run = false } }) tr)
                (p.polling_thread_id == 0) (held, refl, callback) (held, refl, callback),
            refl,
            left,
          )
          ((held, refl, callback), refl, left)
    close_at-Alone waiting (held, same, callback) = (
      (Holds-neutral (thread_join p.polling_thread_id) tr refl refl tt held, refl, callback),
      refl,
      left,
    )
    close_at-Alone deleting held = delete_if-Alone p.producer refl held
    close_at-Alone freeing held = free_if-Alone p.global_conf refl held
    close_at-Alone returned held = (tt, refl, left)
    close_at-Alone gone held = tt

  Reach-Alone : (env : Env) {t u : Threads} → Reach env t u → Alone t → Alone u
  Reach-Alone env start held = held
  Reach-Alone env (later {t = v} r (by_closer e)) held =
      let (here, out, left) = Reach-Alone env r held in
      Leads-next Alone _ _ e (
        subst (λ o. Leads Alone (close_at env v.point (record v { poller = o }))) (sym out)
          (close_at-Alone env v.client v.trace v.others v.exists left v.point here))
  Reach-Alone env (later {t = v} r (by_poller q tr e)) held =
      let (here, out, left) = Reach-Alone env r held in
      absurd (exited_waits env v.poller v.client v.exists v.trace (q, tr) out e)
  Reach-Alone env (later {t = v} r (by_other before after o q tr same e)) held =
      let (here, out, left) = Reach-Alone env r held in
      absurd (
        exited_waits env o v.client v.exists v.trace (q, tr)
          (left_at before after o (subst (All (λ o. o ≡ exited)) same left)) e)

-- Where no thread runs, `closeKafka` in steps keeps the callback, and what the object points to and
-- what stands beside it.
pub alone-Holds :
    (env : Env) {s : Option ℕ} (p : KafkaProducer) (tr : Trace) (t : Threads)
    → Reach env (at env [] entered p tr exited) t
    → t.point ≡ returned
    → Holds p.producer p.global_conf s tr
    → Holds t.client.producer t.client.global_conf s t.trace
      × (t.client.producer_callback ≡ p.producer_callback)
      × (t.poller ≡ exited)
alone-Holds env {s} p tr t r back held =
    let (here, out, left) = Reach-Alone s p env r ((held, refl, refl), refl, tt) in
    let (kept, same, callback) = subst (λ q. Held s p q t.client t.trace) back here in
    (kept, callback, out)
