-- ===== src/Producer/Threads/Messages.antt =====
-- No step of `closeKafka`, of the destructor or of the polling thread hands a message over.
use kafka_client.Base.{ℕ, ◌≡◌, refl, ◌∙◌, Option, none, some, List, ◌∷◌, if-elim}
use mathlib.Core.Path.{subst}
use kafka_client.Base.Int.{pos}
use kafka_client.Kafka.{Env, Trace, delete_send_callback, wait_destroyed}
use kafka_client.Callback.Delivery as Delivery
use kafka_client.Producer.State.{KafkaProducer}
use kafka_client.Producer.Lifecycle.{destruct}
use kafka_client.Producer.Session.{outbox}
use kafka_client.Producer.Threads.{
  Point, entered, asking, emptying, stopping, waiting, deleting, freeing, returned, gone, Place,
  testing, calling, exited, polling, Threads, close_next, close_at, ask, delete_if, free_if,
  by_closer, by_poller, by_other, Reach, start, later,
}
use kafka_client.Producer.Threads.Invariant.{Opened, Goes, state, Inv-state}
use kafka_client.Producer.Threads.Steps.{
  Moved, tested, called, answered, thread_next-Moved, Goes-next,
}
use kafka_client.Producer.Threads.Safety.{Ready, closing, closing-Inv}
use kafka_client.Producer.Threads.Schedule.{at}

destruct-outbox : (p : KafkaProducer) (tr : Trace) → outbox (destruct p tr) ≡ outbox tr
unfolding destruct Delivery.destruct
destruct-outbox p tr =
    if-elim {A = Delivery.ProducerCallback × Trace} (λ r. outbox r.1 ≡ outbox tr)
      p.producer_callback.is_default_callback (deleted p.producer_callback.send_callback) refl
  where
    deleted :
        (s : Option ℕ)
        → outbox (elim s [
          | some h ↦ delete_send_callback h ∷ wait_destroyed (pos 5000) ∷ tr
          | none ↦ wait_destroyed (pos 5000) ∷ tr
        ])
          ≡ outbox tr
    deleted none = refl
    deleted (some h) = refl

module _ (env : Env) (k : Opened) where
  close_at-outbox :
      (q : Point) (tr : Trace) (o : Place) (others : List Place)
      → Goes (λ (t : Threads). outbox t.trace ≡ outbox tr) (close_at env q (state k q tr o others))
  unfolding close_at ask delete_if free_if
  close_at-outbox entered tr o others = refl
  close_at-outbox asking tr o others = refl
  close_at-outbox emptying tr o others = refl
  close_at-outbox stopping tr o others = refl
  close_at-outbox waiting tr exited others = refl
  close_at-outbox waiting tr testing others = tt
  close_at-outbox waiting tr calling others = tt
  close_at-outbox waiting tr (polling g t) others = tt
  close_at-outbox deleting tr o others = refl
  close_at-outbox freeing tr o others = refl
  close_at-outbox returned tr o others = destruct-outbox _ tr
  close_at-outbox gone tr o others = tt

  Moved-outbox :
      (p : KafkaProducer) (tr tr' : Trace) (o q : Place)
      → Moved p tr o q tr'
      → outbox tr' ≡ outbox tr
  Moved-outbox p tr tr' o q tested = refl
  Moved-outbox p tr tr' o q (called g found) = refl
  Moved-outbox p tr tr' o q (answered g t) = refl

  pub closing-outbox :
      (o : Place) (others : List Place) {s : Threads}
      → Ready k o others
      → Reach env (closing k o others) s
      → outbox s.trace ≡ outbox k.trace
  closing-outbox o others ready start = refl
  closing-outbox o others ready (later {t} {u} r (by_closer e)) =
      let (same, here, kept, polls, left) = closing-Inv k env o others ready r in
      Goes-next (λ (u : Threads). outbox u.trace ≡ outbox t.trace) (close_next env t) u e
        (subst
          (λ (t : Threads).
            Goes (λ (u : Threads). outbox u.trace ≡ outbox t.trace) (close_next env t))
          (Inv-state k t same here) (close_at-outbox t.point t.trace t.poller t.others))
      ∙ closing-outbox o others ready r
  closing-outbox o others ready (later {t} r (by_poller q tr e)) =
      Moved-outbox t.client t.trace tr t.poller q
        (thread_next-Moved env t.poller q t.client t.exists t.trace tr e)
      ∙ closing-outbox o others ready r
  closing-outbox o others ready (later {t} r (by_other before after w q tr at e)) =
      Moved-outbox t.client t.trace tr w q
        (thread_next-Moved env w q t.client t.exists t.trace tr e)
      ∙ closing-outbox o others ready r
