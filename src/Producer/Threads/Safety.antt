-- ===== src/Producer/Threads/Safety.antt =====
-- No schedule of the threads leads to something undefined, and all leave the same.
use kafka_client.Base.{
  ℕ, ◌≡◌, refl, true, false, List, All, ◌≢◌, none, ◌==◌, ◌∙◌, Bool, if◌then◌else◌,
}
use mathlib.Core.Path.{subst}
use kafka_client.Kafka.{Env, Trace, alive, IsSafe}
use kafka_client.Producer.Lifecycle.Owned.{Owns}
use kafka_client.Producer.Threads.{
  Point, entered, asking, emptying, stopping, waiting, deleting, freeing, returned, gone, Place,
  exited, Threads, faults, thread_next, close_next, Reach,
}
use kafka_client.Producer.Threads.Steps.{Goes-defined, close_next-Inv, thread_next-Inv, Reach-Inv}
use kafka_client.Producer.Threads.Invariant.{
  Opened, PollsOnly, opened, object_at, state, Kept, Polls, Inv,
}

module _ (k : Opened) where
  -- What is asked for when `closeKafka` is called: the object owns what it points to, has the id of
  -- its polling thread, which polls no other producer, and every thread that was started before
  -- that one has ended.
  pub record Ready (o : Place) (others : List Place) : Type 0 where
    pub owns : Owns (opened k) k.trace
    pub identified : k.client.polling_thread_id ≢ 0
    pub own : PollsOnly k.object o
    pub ended : All (λ q. q ≡ exited) others

  abbrev pub closing : Place → List Place → Threads
  closing o others = state k entered k.trace o others

  pub closing-Inv :
      (env : Env) (o : Place) (others : List Place) {s : Threads}
      → Ready o others
      → Reach env (closing o others) s
      → Inv k s
  closing-Inv env o others ready r =
      Reach-Inv k env ready.identified r
        (refl, refl, (ready.owns, λ j. refl), ready.own, ready.ended)

  Kept-IsSafe : (q : Point) (tr : Trace) → Kept k q tr → IsSafe tr
  Kept-IsSafe entered tr kept = (kept.0).safe
  Kept-IsSafe asking tr kept = (kept.0).safe
  Kept-IsSafe emptying tr kept = (kept.0).safe
  Kept-IsSafe stopping tr kept = (kept.0).safe
  Kept-IsSafe waiting tr kept = (kept.0).safe
  Kept-IsSafe deleting tr kept = (kept.0).safe
  Kept-IsSafe freeing tr kept = (kept.0).safe
  Kept-IsSafe returned tr kept = (kept.0).safe
  Kept-IsSafe gone tr kept = kept.0

  -- From a `closeKafka` that is called while the polling thread runs, through the destructor, in
  -- any order of the steps of both: no call has used or deleted an object that was gone, and no
  -- next step of either thread follows a null pointer or reads a member of a client object that is
  -- gone.
  pub closing-IsSafe :
      (env : Env) (o : Place) (others : List Place) (s : Threads)
      → Ready o others
      → Reach env (closing o others) s
      → IsSafe s.trace
        × (close_next env s ≢ faults)
        × (thread_next env s.poller s.client s.exists s.trace ≢ faults)
  closing-IsSafe env o others s ready r =
      let inv = closing-Inv env o others ready r in
      (
        Kept-IsSafe s.point s.trace inv.2,
        Goes-defined _ _ (close_next-Inv k env s ready.identified inv),
        Goes-defined _ _ (thread_next-Inv k env s inv),
      )

  -- Whenever `closeKafka` has returned, in any order of its steps and those of the polling thread:
  -- the object is the one before, without a producer and a configuration and with `bRun` cleared;
  -- the polling thread has ended; and exactly the objects exist that existed before, but the
  -- producer and the configuration.
  pub closing_lem :
      (env : Env) (o : Place) (others : List Place) (s : Threads)
      → Ready o others
      → Reach env (closing o others) s
      → s.point ≡ returned
      → (s.client ≡ record (opened k) {
        producer = none;
        global_conf = none;
        event_poll = record ((opened k).event_poll) { run = false };
      })
        × (s.poller ≡ exited)
        × Owns s.client s.trace
        × ((j : ℕ)
            → alive j s.trace ≡ (
                if k.configuration == j
                then false
                else if k.object == j
                then false
                else alive j k.trace))
  closing_lem env o others s ready r at =
      let (same, here, kept, polls, left) = closing-Inv env o others ready r in
      let (object, (held, objects), out) =
        subst (λ q. (s.client ≡ object_at k q) × Kept k q s.trace × Polls k q s.poller) at
          (same, kept, polls) in
      (
        object,
        out,
        rw object held,
        λ j. objects j ∙ nested (k.configuration == j) (k.object == j) _,
      )
    where
      nested :
          (x y w : Bool)
          → (if (if x then true else y) then false else w)
            ≡ (if x then false else if y then false else w)
      nested true y w = refl
      nested false y w = refl
