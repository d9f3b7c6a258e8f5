-- ===== src/Producer/Threads/Refines.antt =====
-- The threads' steps, over the calls and the object, as the steps of Producer/Polling.
use kafka_client.Producer.State.{KafkaProducer}
use kafka_client.Base.{
  if-elim, if◌then◌else◌, ◌≡◌, refl, sym, ◌∙◌, ap, ◌⊎◌, inl, inr, false, Bool-cases, List, ◌≢◌,
  arith, ◌==◌, All, ltb,
}
use mathlib.Core.Path.{subst}
use kafka_client.Kafka.{Env, Trace}
use kafka_client.Producer.Polling as Polling
use kafka_client.Producer.Polling.{Closer, Poller, System}
use kafka_client.Producer.Threads.{
  Point, entered, asking, emptying, stopping, waiting, deleting, freeing, returned, gone, Place,
  testing, calling, exited, polling, Threads, close_next, close_at, ask, delete_if, free_if, Step,
  by_closer, by_poller, by_other, Reach, start, later,
}
use kafka_client.Producer.Threads.Invariant.{Opened, Goes, state, Inv, Inv-state, Polls}
use kafka_client.Producer.Threads.View.{run_at, system_at, view, object_at-run, Inv-view}
use kafka_client.Producer.Threads.Steps.{
  Moved, tested, called, answered, thread_next-Moved, exited_waits, Goes-next, left_at,
}
use kafka_client.Producer.Threads.Safety.{Ready, closing, closing-Inv}

-- A step is one there, or leaves what is seen there as it is.
abbrev Follows : System → System → Type 0
Follows a b = Polling.Step a b ⊎ (b ≡ a)

module _ (env : Env) (k : Opened) where
  close_at-Follows :
      (q : Point) (tr : Trace) (o : Place) (others : List Place)
      → k.client.polling_thread_id ≢ 0
      → Polls k q o
      → Goes
          (λ (t : Threads). Follows (system_at q o) (system_at t.point t.poller))
          (close_at env q (state k q tr o others))
  unfolding close_at ask delete_if free_if
  close_at-Follows entered tr o others id polls = inr refl
  close_at-Follows asking tr o others id polls =
      if-elim (λ q. Follows (system_at asking o) (system_at q o)) (ltb 0 (env.outq_len tr))
        (inr refl) (inl (Polling.drained refl refl))
  close_at-Follows emptying tr o others id polls = inr refl
  close_at-Follows stopping tr o others id polls = rw known (inl (Polling.clear_run refl refl refl))
    where
      known : (k.client.polling_thread_id == 0) ≡ false
      known = ground arith
  close_at-Follows waiting tr exited others id polls = inl (Polling.join refl refl refl)
  close_at-Follows waiting tr testing others id polls = tt
  close_at-Follows waiting tr calling others id polls = tt
  close_at-Follows waiting tr (polling g t) others id polls = tt
  close_at-Follows deleting tr o others id polls = inl (Polling.delete refl refl)
  close_at-Follows freeing tr o others id polls = inr refl
  close_at-Follows returned tr o others id polls = inr refl
  close_at-Follows gone tr o others id polls = tt

  Moved-Follows :
      (q : Point) (p : KafkaProducer) (tr tr' : Trace) (o o' : Place)
      → p.event_poll.run ≡ run_at q
      → Moved p tr o o' tr'
      → Follows (system_at q o) (system_at q o')
  Moved-Follows q p tr tr' o o' run tested = rw run flag
    where
      flag : Follows (system_at q testing) (system_at q (if run_at q then calling else exited))
      flag = elim (Bool-cases (run_at q)) [
        | inl set ↦ rw set (inl (Polling.enter refl refl refl))
        | inr cleared ↦ rw cleared (inl (Polling.leave refl refl refl))
      ]
  Moved-Follows q p tr tr' o o' run (called g found) = inr refl
  Moved-Follows q p tr tr' o o' run (answered g t) = inl (Polling.poll_returns refl refl)

  Step-Follows :
      (s t : Threads)
      → k.client.polling_thread_id ≢ 0
      → Inv k s
      → Step env s t
      → Follows (system_at s.point s.poller) (system_at t.point t.poller)
  Step-Follows s t id (same, here, kept, polls, left) (by_closer e) =
      Goes-next (λ (t : Threads). Follows (system_at s.point s.poller) (system_at t.point t.poller))
        (close_next env s) t e
        (subst
          (λ (s : Threads).
            Goes
              (λ (t : Threads). Follows (system_at s.point s.poller) (system_at t.point t.poller))
              (close_next env s))
          (Inv-state k s same here) (close_at-Follows s.point s.trace s.poller s.others id polls))
  Step-Follows s t id (same, here, kept, polls, left) (by_poller q tr e) =
      Moved-Follows s.point s.client s.trace tr s.poller q
        (ap (λ (p : KafkaProducer). p.event_poll.run) same ∙ object_at-run k s.point)
        (thread_next-Moved env s.poller q s.client s.exists s.trace tr e)
  Step-Follows s t id (same, here, kept, polls, left) (by_other before after o q tr at e) = absurd (
      exited_waits env o s.client s.exists s.trace (q, tr)
        (left_at before after o (subst (All (λ o. o ≡ exited)) at left)) e)

  Reach-system :
      (others : List Place) {s : Threads}
      → Ready k testing others
      → Reach env (closing k testing others) s
      → Polling.Reach (system_at s.point s.poller)
  Reach-system others ready start = Polling.start
  Reach-system others ready (later {t} {u} r st) =
      elim (Step-Follows t u ready.identified (closing-Inv k env testing others ready r) st) [
        | inl moved ↦ Polling.later (Reach-system others ready r) moved
        | inr same ↦ subst Polling.Reach (sym same) (Reach-system others ready r)
      ]

  -- In every state that `closeKafka`, called while its polling thread runs, and the destructor can
  -- reach in any order of the steps: the flag, whether the producer exists, and the places of the
  -- two threads are a state that Producer/Polling reaches.
  pub Reach-view :
      (others : List Place) (s : Threads)
      → Ready k testing others
      → Reach env (closing k testing others) s
      → Polling.Reach (view k.object s)
  Reach-view others s ready r =
      subst Polling.Reach (sym (Inv-view k s (closing-Inv k env testing others ready r)))
        (Reach-system others ready r)
