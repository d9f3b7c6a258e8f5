-- ===== src/Producer/Threads/Ends.antt =====
-- `closeKafka` and the destructor come to an end in every order of the threads' steps.
use kafka_client.Base.{
  ℕ, suc, ◌+◌, ◌*◌, ◌≤◌, ◌<◌, ◌≡◌, refl, sym, ◌⊎◌, inl, inr, List, ◌∷◌, arith, All,
}
use mathlib.Core.Path.{subst}
use kafka_client.Kafka.{Env, Trace, poll}
use kafka_client.Producer.Threads.{
  Point, entered, asking, emptying, stopping, waiting, deleting, freeing, returned, gone, Place,
  testing, calling, exited, polling, Threads, next, thread_next, close_next, close_at, by_closer,
  by_poller, by_other, Reach, start, later,
}
use kafka_client.Producer.Threads.Invariant.{Opened, state, Inv-state, Polls, PollsOnly}
use kafka_client.Producer.Threads.Queue.{
  Settles, steps_at, steps_at_mono, place_steps, steps_left, thread_next-le, close_next-lt,
  rounds_at,
}
use kafka_client.Producer.Threads.Steps.{left_at}
use kafka_client.Producer.Threads.Safety.{Ready, closing, closing-Inv}

-- The steps that the thread of the application has taken.
abbrev pub closer_steps : (env : Env) {s t : Threads} → Reach env s t → ℕ
closer_steps env start = 0
closer_steps env (later r (by_closer e)) = suc (closer_steps env r)
closer_steps env (later r (by_poller q tr e)) = closer_steps env r
closer_steps env (later r (by_other before after o q tr at e)) = closer_steps env r

module _ (env : Env) (k : Opened) (settles : Settles env k.object) where
  Polls-PollsOnly : (q : Point) (o : Place) → Polls k q o → PollsOnly k.object o
  Polls-PollsOnly q exited polls = tt
  Polls-PollsOnly q testing polls = tt
  Polls-PollsOnly q calling polls = tt
  Polls-PollsOnly entered (polling g t) polls = polls
  Polls-PollsOnly asking (polling g t) polls = polls
  Polls-PollsOnly emptying (polling g t) polls = polls
  Polls-PollsOnly stopping (polling g t) polls = polls
  Polls-PollsOnly waiting (polling g t) polls = polls
  Polls-PollsOnly deleting (polling g t) polls = absurd (cc)
  Polls-PollsOnly freeing (polling g t) polls = absurd (cc)
  Polls-PollsOnly returned (polling g t) polls = absurd (cc)
  Polls-PollsOnly gone (polling g t) polls = absurd (cc)

  steps_left-thread :
      (s : Threads) (o q : Place) (tr' : Trace)
      → PollsOnly k.object o
      → thread_next env o s.client s.exists s.trace ≡ next (q, tr')
      → steps_at s.point (rounds_at env k settles s.point tr') ≤ (steps_left env k settles s)
  steps_left-thread s o q tr' only e =
      steps_at_mono s.point _ _
        ((thread_next-le env k settles o q s.client s.exists s.trace tr' only e).0 s.point)

  taken_steps :
      (o : Place) (others : List Place) {s : Threads}
      → Ready k o others
      → (r : Reach env (closing k o others) s)
      → closer_steps env r + (steps_left env k settles s) ≤ 2 * settles.rounds_left k.trace + 8
  taken_steps o others ready start = omega arith
  taken_steps o others ready (later {t} {u} r (by_closer e)) = omega (
    arith,
    taken_steps o others ready r,
    close_next-lt env k settles t u (closing-Inv k env o others ready r) e,
  )
  taken_steps o others ready (later {t} r (by_poller q tr e)) =
      let (same, here, kept, polls, left) = closing-Inv k env o others ready r in
      omega (
        arith,
        taken_steps o others ready r,
        steps_left-thread t t.poller q tr (Polls-PollsOnly t.point t.poller polls) e,
      )
  taken_steps o others ready (later {t} r (by_other before after w q tr at e)) =
      let (same, here, kept, polls, left) = closing-Inv k env o others ready r in
      let out : w ≡ exited = left_at before after w (subst (All (λ o. o ≡ exited)) at left) in
      omega (
        arith,
        taken_steps o others ready r,
        steps_left-thread t w q tr (subst (PollsOnly k.object) (sym out) tt) e,
      )

  -- The thread of the application goes on, or waits for the polling thread, which does.
  abbrev pub GoesOn : Threads → Type 0
  GoesOn s =
      (s.point ≡ gone)
      ⊎ ((t : Threads) × (close_next env s ≡ next t))
      ⊎ ((s.point ≡ waiting)
          × (q : Place) × (tr : Trace) × (thread_next env s.poller s.client s.exists s.trace
              ≡ next (q, tr))
          × (place_steps q < place_steps s.poller))

  state-GoesOn :
      (q : Point) (tr : Trace) (o : Place) (others : List Place)
      → Polls k q o
      → GoesOn (state k q tr o others)
  unfolding close_at thread_next
  state-GoesOn entered tr o others polls = inr (inl (_, refl))
  state-GoesOn asking tr o others polls = inr (inl (_, refl))
  state-GoesOn emptying tr o others polls = inr (inl (_, refl))
  state-GoesOn stopping tr o others polls = inr (inl (_, refl))
  state-GoesOn waiting tr exited others polls = inr (inl (_, refl))
  state-GoesOn waiting tr testing others polls = inr (inr (refl, exited, tr, refl, omega arith))
  state-GoesOn waiting tr calling others polls =
      inr (inr (refl, polling k.object k.time_out, tr, refl, omega arith))
  state-GoesOn waiting tr (polling g t) others polls =
      inr (inr (refl, testing, poll g t ∷ tr, refl, omega arith))
  state-GoesOn deleting tr o others polls = inr (inl (_, refl))
  state-GoesOn freeing tr o others polls = inr (inl (_, refl))
  state-GoesOn returned tr o others polls = inr (inl (_, refl))
  state-GoesOn gone tr o others polls = inl refl

  -- Where the object owns what it points to and has the id of the one thread that polls for it: if
  -- only so many rounds of the loop of `closeKafka` find the queue not empty, as a number says
  -- that is less after a question that does and the poll for half a second, and that no poll of
  -- the thread raises, before these two or between them, then in any order of the steps of
  -- `closeKafka` and of the polling thread, it and the destructor take at most 2 n + 8 steps,
  -- where `n` is the number at the call, and at every point before the end they can take one, but
  -- in `pthread_join`, where the polling thread can take one and comes nearer to its own end by
  -- it.
  pub closing_bounded :
      (o : Place) (others : List Place) (s : Threads)
      → Ready k o others
      → (r : Reach env (closing k o others) s)
      → (closer_steps env r ≤ 2 * settles.rounds_left k.trace + 8) × GoesOn s
  closing_bounded o others s ready r =
      let (same, here, kept, polls, left) = closing-Inv k env o others ready r in
      (
        omega (arith, taken_steps o others ready r),
        subst GoesOn (Inv-state k s same here)
            (state-GoesOn s.point s.trace s.poller s.others polls),
      )
