-- ===== src/Producer/Threads/Queue.antt =====
-- How many steps are left of `closeKafka` and the destructor, while the queue gets shorter.
use kafka_client.Base.{
  ℕ, ◌+◌, ◌*◌, ◌≤◌, ◌<◌, ◌≡◌, inl, inr, Bool, false, Bool-cases, List, ◌∷◌, arith, ◌==◌, ltb,
  ltb→lt,
}
use mathlib.Core.Path.{subst}
use kafka_client.Base.Int.{ℤ, pos}
use kafka_client.Kafka.{Env, Trace, poll, outq_len}
use kafka_client.Producer.State.{KafkaProducer}
use kafka_client.Producer.Threads.{
  Point, entered, asking, emptying, stopping, waiting, deleting, freeing, returned, gone, Place,
  testing, calling, exited, polling, Threads, next, thread_next, close_next, close_at, ask,
  delete_if, free_if,
}
use kafka_client.Producer.Threads.Steps.{
  Moved, tested, called, answered, thread_next-Moved, Goes-next,
}
use kafka_client.Producer.Threads.Invariant.{Opened, Goes, state, Inv, Inv-state, PollsOnly}

-- The library's queue while nothing is sent: how many rounds of the loop of `closeKafka` still find
-- it not empty, at most. Every message is reported at its timeout at the latest, so that the number
-- is less after such a round, a question and a poll for half a second. The thread's polls raise it
-- neither before a round nor within one. An empty queue may fill again.
pub record Settles (env : Env) (h : ℕ) : Type 0 where
  pub rounds_left : Trace → ℕ
  pub round :
      (tr : Trace)
      → 0 < env.outq_len tr
      → rounds_left (poll h (pos 500) ∷ outq_len h (env.outq_len tr) ∷ tr) < rounds_left tr
  pub before : (tr : Trace) (t : ℤ) → rounds_left (poll h t ∷ tr) ≤ rounds_left tr
  pub within :
      (tr : Trace) (t : ℤ)
      → rounds_left (poll h (pos 500) ∷ poll h t ∷ tr) ≤ rounds_left (poll h (pos 500) ∷ tr)

-- The steps that are left, at most, with `n` rounds to come.
abbrev pub steps_at : Point → ℕ → ℕ
steps_at entered n = 2 * n + 8
steps_at asking n = 2 * n + 7
steps_at emptying n = 2 * n + 8
steps_at stopping n = 5
steps_at waiting n = 4
steps_at deleting n = 3
steps_at freeing n = 2
steps_at returned n = 1
steps_at gone n = 0

-- The steps of a polling thread that reads `bRun` as false.
abbrev pub place_steps : Place → ℕ
place_steps exited = 0
place_steps testing = 1
place_steps (polling h t) = 2
place_steps calling = 3

pub steps_at_mono : (q : Point) (m n : ℕ) → m ≤ n → steps_at q m ≤ steps_at q n
steps_at_mono entered m n le = omega arith
steps_at_mono asking m n le = omega arith
steps_at_mono emptying m n le = omega arith
steps_at_mono stopping m n le = omega arith
steps_at_mono waiting m n le = omega arith
steps_at_mono deleting m n le = omega arith
steps_at_mono freeing m n le = omega arith
steps_at_mono returned m n le = omega arith
steps_at_mono gone m n le = omega arith

module _ (env : Env) (k : Opened) (settles : Settles env k.object) where
  -- The rounds to come. In the loop's body the next poll belongs to the round that has begun.
  abbrev pub rounds_at : Point → Trace → ℕ
  rounds_at emptying tr = settles.rounds_left (poll k.object (pos 500) ∷ tr)
  rounds_at _ tr = settles.rounds_left tr

  pub polled_at :
      (q : Point) (tr : Trace) (t : ℤ) → rounds_at q (poll k.object t ∷ tr) ≤ rounds_at q tr
  polled_at entered tr t = settles.before tr t
  polled_at asking tr t = settles.before tr t
  polled_at emptying tr t = settles.within tr t
  polled_at stopping tr t = settles.before tr t
  polled_at waiting tr t = settles.before tr t
  polled_at deleting tr t = settles.before tr t
  polled_at freeing tr t = settles.before tr t
  polled_at returned tr t = settles.before tr t
  polled_at gone tr t = settles.before tr t

  abbrev pub steps_left : Threads → ℕ
  steps_left s = steps_at s.point (rounds_at s.point s.trace)

  close_at-lt :
      (q : Point) (tr : Trace) (o : Place) (others : List Place)
      → Goes
          (λ t. steps_left t < steps_left (state k q tr o others))
          (close_at env q (state k q tr o others))
  unfolding close_at ask delete_if free_if
  close_at-lt entered tr o others = omega arith
  close_at-lt asking tr o others = elim (Bool-cases (ltb 0 (env.outq_len tr))) [
    | inl busy ↦ rw busy (omega (arith, settles.round tr (ltb→lt 0 (env.outq_len tr) busy)))
    | inr idle ↦ rw idle (omega arith)
  ]
  close_at-lt emptying tr o others = omega arith
  close_at-lt stopping tr o others = elim (Bool-cases (k.client.polling_thread_id == 0)) [
    | inl unknown ↦ rw unknown (omega arith)
    | inr known ↦ rw known (omega arith)
  ]
  close_at-lt waiting tr exited others = omega arith
  close_at-lt waiting tr testing others = tt
  close_at-lt waiting tr calling others = tt
  close_at-lt waiting tr (polling h t) others = tt
  close_at-lt deleting tr o others = omega arith
  close_at-lt freeing tr o others = omega arith
  close_at-lt returned tr o others = omega arith
  close_at-lt gone tr o others = tt

  -- A step of a polling thread adds no round, and is one less where `bRun` is false.
  abbrev pub Shortens : Bool → Place → Trace → Place × Trace → Type 0
  Shortens run o tr r =
      ((q : Point) → rounds_at q r.1 ≤ rounds_at q tr)
      × (run ≡ false → place_steps r.0 < place_steps o)

  Moved-Shortens :
      (p : KafkaProducer) (tr tr' : Trace) (o q : Place)
      → PollsOnly k.object o
      → Moved p tr o q tr'
      → Shortens p.event_poll.run o tr (q, tr')
  Moved-Shortens p tr tr' o q only tested = (λ q. omega arith, λ idle. rw idle (omega arith))
  Moved-Shortens p tr tr' o q only (called g found) = (λ q. omega arith, λ idle. omega arith)
  Moved-Shortens p tr tr' o q only (answered g t) =
      (λ q. rw only (polled_at q tr t), λ idle. omega arith)

  pub thread_next-le :
      (o q : Place) (p : KafkaProducer) (e : Bool) (tr tr' : Trace)
      → PollsOnly k.object o
      → thread_next env o p e tr ≡ next (q, tr')
      → Shortens p.event_poll.run o tr (q, tr')
  thread_next-le o q p e tr tr' only n =
      Moved-Shortens p tr tr' o q only (thread_next-Moved env o q p e tr tr' n)

  pub close_next-lt :
      (s t : Threads) → Inv k s → close_next env s ≡ next t → steps_left t < steps_left s
  close_next-lt s t (same, here, kept, polls, left) e =
      Goes-next (λ t. steps_left t < steps_left s) (close_next env s) t e
        (subst (λ s. Goes (λ t. steps_left t < steps_left s) (close_next env s))
          (Inv-state k s same here) (close_at-lt s.point s.trace s.poller s.others))
