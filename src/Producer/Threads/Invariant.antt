-- ===== src/Producer/Threads/Invariant.antt =====
-- What holds at each point of `closeKafka`, whichever steps the polling threads have taken.
use kafka_client.Base.{
  ℕ, ◌≡◌, sym, ◌∙◌, Bool, true, false, none, some, List, ◌∷◌, ◌==◌, if◌then◌else◌, All,
}
use kafka_client.Base.Int.{ℤ}
use kafka_client.Kafka.{Trace, alive, created, destroyed, needed, IsSafe, Call}
use kafka_client.Ownership.{Holds-neutral, alive-neutral}
use kafka_client.Producer.State.{KafkaProducer}
use kafka_client.Producer.Lifecycle.Owned.{Owns}
use kafka_client.Producer.Threads.{
  Point, entered, asking, emptying, stopping, waiting, deleting, freeing, returned, gone, Place,
  exited, polling, Threads, Next, waits, faults, next,
}

-- An object with the producer `h` and the configuration `c`, whose polling thread runs.
abbrev pub polled_object : ℕ → ℕ → ℤ → KafkaProducer → KafkaProducer
polled_object h c time_out p = record p {
  producer = some h;
  global_conf = some c;
  event_poll = record { producer = some h; run = true; time_out = time_out };
}

-- A thread that is in `poll` polls the producer `h`.
abbrev pub PollsOnly : ℕ → Place → Type 0
PollsOnly h (polling g t) = g ≡ h
PollsOnly h o = Unit

-- What a step leads to, if there is one; none is undefined.
abbrev pub Goes : {A : Type 0} → (A → Type 0) → Next A → Type 0
Goes P waits = Unit
Goes P faults = ⊥
Goes P (next t) = P t

-- A producer that is open: its handles, its object, and the calls so far.
pub record Opened : Type 0 where
  pub object : ℕ
  pub configuration : ℕ
  pub time_out : ℤ
  pub client : KafkaProducer
  pub trace : Trace

module _ (k : Opened) where
  abbrev pub opened : KafkaProducer
  opened = polled_object k.object k.configuration k.time_out k.client

  abbrev pub stopped : KafkaProducer
  stopped = record opened { event_poll = record (opened.event_poll) { run = false } }

  abbrev pub without_producer : KafkaProducer
  without_producer = record stopped { producer = none }

  abbrev pub closed : KafkaProducer
  closed = record without_producer { global_conf = none }

  -- The object at each point.
  abbrev pub object_at : Point → KafkaProducer
  object_at entered = opened
  object_at asking = opened
  object_at emptying = opened
  object_at stopping = opened
  object_at waiting = stopped
  object_at deleting = stopped
  object_at freeing = without_producer
  object_at returned = closed
  object_at gone = closed

  abbrev pub exists_at : Point → Bool
  exists_at gone = false
  exists_at _ = true

  abbrev pub state : Point → Trace → Place → List Place → Threads
  state q tr o others = record {
    client = object_at q;
    exists = exists_at q;
    trace = tr;
    point = q;
    poller = o;
    others = others;
  }

  -- Which objects have been deleted.
  abbrev pub lost_at : Point → ℕ → Bool
  lost_at freeing j = k.object == j
  lost_at returned j = if k.configuration == j then true else k.object == j
  lost_at _ j = false

  -- What is owned, and which objects there are.
  abbrev pub Stands : KafkaProducer → (ℕ → Bool) → Trace → Type 0
  Stands q lost tr =
      Owns q tr × ((j : ℕ) → alive j tr ≡ (if lost j then false else alive j k.trace))

  abbrev pub Kept : Point → Trace → Type 0
  Kept gone tr = IsSafe tr × (alive k.object tr ≡ false)
  Kept q tr = Stands (object_at q) (lost_at q) tr

  -- The polling thread polls no other producer than `h`, and has left before anything is deleted.
  abbrev pub Polls : Point → Place → Type 0
  Polls deleting o = o ≡ exited
  Polls freeing o = o ≡ exited
  Polls returned o = o ≡ exited
  Polls gone o = o ≡ exited
  Polls q o = PollsOnly k.object o

  abbrev pub Inv : Threads → Type 0
  Inv s =
      (s.client ≡ object_at s.point)
      × (s.exists ≡ exists_at s.point)
      × Kept s.point s.trace
      × Polls s.point s.poller
      × All (λ o. o ≡ exited) s.others

  -- A state in which this holds is one of these.
  pub Inv-state :
      (s : Threads)
      → s.client ≡ object_at s.point
      → s.exists ≡ exists_at s.point
      → state s.point s.trace s.poller s.others ≡ s
  Inv-state s same here = sym (λ i. record s { client = same i; exists = here i })

  -- A call that neither creates nor destroys an object.
  pub Stands-neutral :
      (q : KafkaProducer) (lost : ℕ → Bool) (x : Call) (tr : Trace)
      → created x ≡ none
      → destroyed x ≡ none
      → All (λ j. alive j tr ≡ true) (needed x)
      → Stands q lost tr
      → Stands q lost (x ∷ tr)
  Stands-neutral q lost x tr new old ready (held, objects) =
      (Holds-neutral x tr new old ready held, λ j. alive-neutral x j tr new old ∙ objects j)
