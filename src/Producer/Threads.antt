-- ===== src/Producer/Threads.antt =====
-- `closeKafka` and the destructor, statement by statement, beside the threads that run
-- `EventPoll::eventPoll` (KafkaProducer.cpp): every call of the library and every access to a
-- member that another thread uses is a step, and the threads take their steps in any order.
-- Accesses to `bRun` and to the pointers are taken to happen at once.
pub mod Invariant
pub mod Closer
pub mod Steps
pub mod Safety
pub mod Schedule
pub mod Queue
pub mod Ends
pub mod View
pub mod Refines
pub mod Dangling
pub mod Messages
pub mod Life
pub mod Alone
pub mod Running
use kafka_client.Base.{
  ℕ, Bool, true, false, not, ◌&&◌, ◌≡◌, Option, none, some, List, ◌∷◌, ltb, ◌==◌, if◌then◌else◌,
  is_some, ◌++◌, zero,
}
use kafka_client.Base.Int.{ℤ, pos}
use kafka_client.Kafka.{
  Env, Trace, poll, outq_len, thread_create, thread_join, delete_producer, delete_conf,
}
use kafka_client.Producer.State.{KafkaProducer}
use kafka_client.Producer.Lifecycle.{destruct}

-- Where the thread of the application stands: in `closeKafka` before its first test, at the loop's
-- test, in the loop's body, at the test of `bRun`, at `pthread_join`, at the two deletes; behind
-- `closeKafka`; and behind the destructor.
pub data Point : Type 0 where
  entered asking emptying stopping waiting deleting freeing returned gone : Point

-- Where a polling thread stands: at the test of `bRun`, before the call of `poll`, in `poll` of a
-- producer, and behind the loop.
pub data Place : Type 0 where
  testing calling exited : Place
  polling : ℕ → ℤ → Place

-- `exists` says whether the `KafkaProducer` exists. `poller` is the thread whose id is in
-- `_pollingThreadId`, and `others` are those whose ids a later `initKafka` has overwritten.
pub record Threads : Type 0 where
  pub client : KafkaProducer
  pub exists : Bool
  pub trace : Trace
  pub point : Point
  pub poller : Place
  pub others : List Place

-- What a thread does next: a step, nothing for now or ever, or something undefined: it reads a
-- member of an object that is gone, or follows a null pointer.
pub data Next (A : Type 0) : Type 0 where
  waits faults : Next A
  next : A → Next A

abbrev has_exited : Place → Bool
has_exited exited = true
has_exited _ = false

module _ (env : Env) where
  -- One step of a polling thread.
  unfoldable pub thread_next : Place → KafkaProducer → Bool → Trace → Next (Place × Trace)
  thread_next testing p exists tr =
      if exists then next (if p.event_poll.run then calling else exited, tr) else faults
  thread_next calling p exists tr =
      if exists
      then elim p.event_poll.producer [
        | none ↦ faults
        | some g ↦ next (polling g p.event_poll.time_out, tr)
      ]
      else faults
  thread_next (polling g t) p exists tr = next (testing, poll g t ∷ tr)
  thread_next exited p exists tr = waits

  -- The loop's test: whether there is a producer, and messages in its queue.
  unfoldable pub ask : Option ℕ → Threads → Threads
  ask none s = record s { point = stopping }
  ask (some h) s =
      let n = env.outq_len s.trace in
      record s { trace = outq_len h n ∷ s.trace; point = if ltb 0 n then emptying else stopping }

  unfoldable pub delete_if : Option ℕ → Threads → Threads
  delete_if none s = record s { point = freeing }
  delete_if (some h) s = record s {
    client = record (s.client) { producer = none };
    trace = delete_producer h ∷ s.trace;
    point = freeing;
  }

  unfoldable pub free_if : Option ℕ → Threads → Threads
  free_if none s = record s { point = returned }
  free_if (some c) s = record s {
    client = record (s.client) { global_conf = none };
    trace = delete_conf c ∷ s.trace;
    point = returned;
  }

  -- One step of the application's thread.
  unfoldable pub close_at : Point → Threads → Next Threads
  close_at entered s = next (record s {
    point =
        if not (is_some s.client.producer) && not (is_some s.client.global_conf)
        then returned
        else asking;
  })
  close_at asking s = next (ask s.client.producer s)
  close_at emptying s = elim s.client.producer [
    | none ↦ faults
    | some h ↦ next (record s { trace = poll h (pos 500) ∷ s.trace; point = asking })
  ]
  close_at stopping s =
      if s.client.event_poll.run
      then next (record s {
        client = record (s.client) { event_poll = record (s.client.event_poll) { run = false } };
        point = if s.client.polling_thread_id == 0 then deleting else waiting;
      })
      else next (record s { point = deleting })
  close_at waiting s =
      if has_exited s.poller
      then next
          (record s { trace = thread_join s.client.polling_thread_id ∷ s.trace; point = deleting })
      else waits
  close_at deleting s = next (delete_if s.client.producer s)
  close_at freeing s = next (free_if s.client.global_conf s)
  close_at returned s =
      next (record s { trace = destruct s.client s.trace; exists = false; point = gone })
  close_at gone s = waits

  abbrev pub close_next : Threads → Next Threads
  close_next s = close_at s.point s

  -- One step of any thread.
  pub data Step (s : Threads) : Threads → Type 0 where
    by_closer : {t : Threads} → close_next s ≡ next t → Step s t
    by_poller :
        (q : Place) (tr : Trace)
        → thread_next s.poller s.client s.exists s.trace ≡ next (q, tr)
        → Step s (record s { poller = q; trace = tr })
    by_other :
        (before after : List Place) (o q : Place) (tr : Trace)
        → s.others ≡ before ++ o ∷ after
        → thread_next o s.client s.exists s.trace ≡ next (q, tr)
        → Step s (record s { others = before ++ q ∷ after; trace = tr })

  pub data Reach (s : Threads) : Threads → Type 0 where
    start : Reach s s
    later : {t u : Threads} → Reach s t → Step t u → Reach s u

-- `initKafka` has returned: with `pthread_create` answering 0 there is one more thread.
unfoldable pub initialised : KafkaProducer → Trace → Threads → Threads
initialised p (thread_create (pos zero) id ∷ tr) s = record s {
  client = p;
  trace = thread_create (pos zero) id ∷ tr;
  poller = testing;
  others = s.poller ∷ s.others;
}
initialised p tr s = record s { client = p; trace = tr }
