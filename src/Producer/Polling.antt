-- ===== src/Producer/Polling.antt =====
-- An abstract view of `EventPoll::eventPoll` in the polling thread, beside `closeKafka` in the thread
-- that closes: the steps of the two threads in any order, over the flag `bRun` and the producer that
-- both use. A step reads or writes the flag at once, which the plain `bool` of the code does not
-- promise. Producer/Threads has the threads in detail.
pub mod Safety
use kafka_client.Base.{◌≡◌, Bool, true, false}

-- Where `closeKafka` stands: at the loop over the queue, before the test of `bRun`, at
-- `pthread_join`, before `delete producer`, and behind it.
pub data Closer : Type 0 where
  draining clearing joining deleting closed : Closer

-- Where `eventPoll` stands: at the test of `bRun`, in `producer->poll`, and behind the loop.
pub data Poller : Type 0 where
  testing polling exited : Poller

pub record System : Type 0 where
  pub run : Bool
  pub exists : Bool
  pub closer : Closer
  pub poller : Poller

-- The polling thread has been started.
abbrev pub started : System
started = record { run = true; exists = true; closer = draining; poller = testing }

-- One step of either thread.
pub data Step (s t : System) : Type 0 where
  drain_round : s.closer ≡ draining → t ≡ s → Step s t
  drained : s.closer ≡ draining → t ≡ record s { closer = clearing } → Step s t
  clear_run :
      s.closer ≡ clearing → s.run ≡ true → t ≡ record s { run = false; closer = joining } → Step s t
  no_thread : s.closer ≡ clearing → s.run ≡ false → t ≡ record s { closer = deleting } → Step s t
  join : s.closer ≡ joining → s.poller ≡ exited → t ≡ record s { closer = deleting } → Step s t
  delete : s.closer ≡ deleting → t ≡ record s { exists = false; closer = closed } → Step s t
  enter : s.poller ≡ testing → s.run ≡ true → t ≡ record s { poller = polling } → Step s t
  leave : s.poller ≡ testing → s.run ≡ false → t ≡ record s { poller = exited } → Step s t
  poll_returns : s.poller ≡ polling → t ≡ record s { poller = testing } → Step s t

pub data Reach : System → Type 0 where
  start : Reach started
  later : {s t : System} → Reach s → Step s t → Reach t
