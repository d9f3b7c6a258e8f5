-- ===== src/Producer/Threads/View.antt =====
-- What Producer/Polling sees of a state of the threads.
use kafka_client.Producer.State.{KafkaProducer}
use kafka_client.Base.{if◌then◌else◌, ℕ, ◌≡◌, refl, ◌∙◌, ap, Bool, true, false, arith, ◌==◌}
use kafka_client.Kafka.{Trace, alive}
use kafka_client.Producer.Polling as Polling
use kafka_client.Producer.Polling.{Closer, Poller, System}
use kafka_client.Producer.Threads.{
  Point, entered, asking, emptying, stopping, waiting, deleting, freeing, returned, gone, Place,
  testing, calling, exited, polling, Threads,
}
use kafka_client.Producer.Threads.Invariant.{Opened, object_at, Inv, Kept}

abbrev pub closer_view : Point → Closer
closer_view entered = Polling.draining
closer_view asking = Polling.draining
closer_view emptying = Polling.draining
closer_view stopping = Polling.clearing
closer_view waiting = Polling.joining
closer_view deleting = Polling.deleting
closer_view _ = Polling.closed

abbrev pub poller_view : Place → Poller
poller_view testing = Polling.testing
poller_view calling = Polling.polling
poller_view (polling g t) = Polling.polling
poller_view exited = Polling.exited

-- The flag, whether the producer `h` exists, and where the two threads stand.
abbrev pub view : ℕ → Threads → System
view h s = record {
  run = s.client.event_poll.run;
  exists = alive h s.trace;
  closer = closer_view s.point;
  poller = poller_view s.poller;
}

-- The flag and the producer at each point.
abbrev pub run_at : Point → Bool
run_at entered = true
run_at asking = true
run_at emptying = true
run_at stopping = true
run_at _ = false

abbrev pub live_at : Point → Bool
live_at freeing = false
live_at returned = false
live_at gone = false
live_at _ = true

abbrev pub system_at : Point → Place → System
system_at q o = record {
  run = run_at q;
  exists = live_at q;
  closer = closer_view q;
  poller = poller_view o;
}

module _ (k : Opened) where
  pub object_at-run : (q : Point) → (object_at k q).event_poll.run ≡ run_at q
  object_at-run entered = refl
  object_at-run asking = refl
  object_at-run emptying = refl
  object_at-run stopping = refl
  object_at-run waiting = refl
  object_at-run deleting = refl
  object_at-run freeing = refl
  object_at-run returned = refl
  object_at-run gone = refl

  Kept-live : (q : Point) (tr : Trace) → Kept k q tr → alive k.object tr ≡ live_at q
  Kept-live entered tr kept = (kept.0).live_o
  Kept-live asking tr kept = (kept.0).live_o
  Kept-live emptying tr kept = (kept.0).live_o
  Kept-live stopping tr kept = (kept.0).live_o
  Kept-live waiting tr kept = (kept.0).live_o
  Kept-live deleting tr kept = (kept.0).live_o
  Kept-live freeing tr kept = kept.1 k.object ∙ lost
    where
      lost : (if k.object == k.object then false else alive k.object k.trace) ≡ false
      lost = ground arith
  Kept-live returned tr kept = kept.1 k.object ∙ lost
    where
      lost :
          (if (if k.configuration == k.object then true else k.object == k.object)
            then false
            else alive k.object k.trace)
          ≡ false
      lost = ground arith
  Kept-live gone tr kept = kept.1

  pub Inv-view : (s : Threads) → Inv k s → view k.object s ≡ system_at s.point s.poller
  Inv-view s (same, here, kept, polls, left) =
      let run : s.client.event_poll.run ≡ run_at s.point =
        ap (λ (p : KafkaProducer). p.event_poll.run) same ∙ object_at-run s.point in
      let exists = Kept-live s.point s.trace kept in
      λ i. record {
        run = run i;
        exists = exists i;
        closer = closer_view s.point;
        poller = poller_view s.poller;
      }
