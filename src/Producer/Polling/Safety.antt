-- ===== src/Producer/Polling/Safety.antt =====
-- The producer outlives the polling thread, and closing ends under every schedule.
use kafka_client.Base.{ℕ, ◌+◌, ◌<◌, ◌≡◌, refl, ◌⊎◌, inl, inr, Bool, true, false, arith}
use kafka_client.Producer.Polling.{
  Closer, draining, clearing, joining, deleting, closed, Poller, testing, polling, exited, System,
  Step, drain_round, drained, clear_run, no_thread, join, delete, enter, leave, poll_returns, Reach,
  start, later,
}

-- What holds at each place of `closeKafka`.
abbrev At : Closer → Bool → Bool → Poller → Type 0
At draining run exists poller = (run ≡ true) × (exists ≡ true)
At clearing run exists poller = (run ≡ true) × (exists ≡ true)
At joining run exists poller = (run ≡ false) × (exists ≡ true)
At deleting run exists poller = (run ≡ false) × (exists ≡ true) × (poller ≡ exited)
At closed run exists poller = (run ≡ false) × (exists ≡ false) × (poller ≡ exited)

abbrev Inv : System → Type 0
Inv s = At s.closer s.run s.exists s.poller

Step-Inv : (s t : System) → Step s t → Inv s → Inv t
Step-Inv s t (drain_round at e) i = ground arith
Step-Inv s t (drained at e) i = ground arith
Step-Inv s t (clear_run at r e) i = ground arith
Step-Inv s t (no_thread at r e) i = ground arith
Step-Inv s t (join at p e) i = ground arith
Step-Inv s t (delete at e) i = ground arith
Step-Inv s t (enter at r e) i = ground arith
Step-Inv s t (leave at r e) i = ground arith
Step-Inv s t (poll_returns at e) i = ground arith

Reach-Inv : {s : System} → Reach s → Inv s
Reach-Inv start = (refl, refl)
Reach-Inv (later {s} {t} r st) = Step-Inv s t st (Reach-Inv r)

-- In every reachable state, the polling thread polls a producer that exists, and `closeKafka`
-- polls and deletes one that exists.
pub poll_alive :
    {s : System}
    → Reach s
    → ((s.poller ≡ polling) ⊎ (s.closer ≡ draining) ⊎ (s.closer ≡ deleting))
    → s.exists ≡ true
poll_alive {s} r at = from_inv (Reach-Inv r) at
  where
    from_inv :
        Inv s
        → ((s.poller ≡ polling) ⊎ (s.closer ≡ draining) ⊎ (s.closer ≡ deleting))
        → s.exists ≡ true
    from_inv i at = ground arith

abbrev closer_rank : Closer → ℕ
closer_rank draining = 4
closer_rank clearing = 3
closer_rank joining = 2
closer_rank deleting = 1
closer_rank closed = 0

abbrev poller_rank : Poller → ℕ
poller_rank polling = 2
poller_rank testing = 1
poller_rank exited = 0

-- The steps that are left, at most, once `bRun` is false.
abbrev pub steps_left : System → ℕ
steps_left s = closer_rank s.closer + poller_rank s.poller

Step-lt :
    (s t : System)
    → Step s t
    → Inv s
    → s.run ≡ false
    → (t.run ≡ false) × (steps_left t < steps_left s)
Step-lt s t (drain_round at e) i stopped = ground arith
Step-lt s t (drained at e) i stopped = ground arith
Step-lt s t (clear_run at r e) i stopped = ground arith
Step-lt s t (no_thread at r e) i stopped = ground arith
Step-lt s t (join at p e) i stopped = ground arith
Step-lt s t (delete at e) i stopped = ground arith
Step-lt s t (enter at r e) i stopped = ground arith
Step-lt s t (leave at r e) i stopped = ground arith
Step-lt s t (poll_returns at e) i stopped = ground arith

progress :
    (s : System) (c : Closer) (p : Poller)
    → s.closer ≡ c
    → s.poller ≡ p
    → Inv s
    → s.run ≡ false
    → (s.closer ≡ closed) ⊎ ((t : System) × Step s t)
progress s draining p at here i stopped = absurd (ground arith)
progress s clearing p at here i stopped = absurd (ground arith)
progress s joining testing at here i stopped = inr (_, leave here stopped refl)
progress s joining polling at here i stopped = inr (_, poll_returns here refl)
progress s joining exited at here i stopped = inr (_, join at here refl)
progress s deleting p at here i stopped = inr (_, delete at refl)
progress s closed p at here i stopped = inl at

-- Once `bRun` is false in a reachable state: every step of either thread leaves it false and makes
-- the number of steps that are left smaller; and `closeKafka` is at its end, or some thread can
-- take a step.
pub closing_ends :
    {s : System}
    → Reach s
    → s.run ≡ false
    → ((t : System) → Step s t → (t.run ≡ false) × (steps_left t < steps_left s))
      × ((s.closer ≡ closed) ⊎ ((t : System) × Step s t))
closing_ends {s} r stopped = (
  λ t st. Step-lt s t st (Reach-Inv r) stopped,
  progress s s.closer s.poller refl refl (Reach-Inv r) stopped,
)
