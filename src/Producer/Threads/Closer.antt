-- ===== src/Producer/Threads/Closer.antt =====
-- A step of `closeKafka` or of the destructor keeps what holds at each point.
use kafka_client.Producer.Lifecycle.{destruct}
use kafka_client.Producer.Lifecycle.Owned.{Owns}
use kafka_client.Base.{
  if-elim, ◌≡◌, refl, ◌∙◌, ap, Bool, true, false, List, arith, ◌==◌, if◌then◌else◌, ltb, All, ◌≢◌,
}
use kafka_client.Kafka.{Env, Trace, alive, created, destroyed, needed}
use kafka_client.Ownership.Destroyed.{Holds-deleted_object, Holds-deleted_configuration}
use kafka_client.Ownership.Frame.{alive-gone}
use kafka_client.Producer.Lifecycle.Owned.{Owns}
use kafka_client.Producer.Session.Leaks.{destruct-Owns, is_deleted_callback}
use kafka_client.Producer.Threads.{
  Point, entered, asking, emptying, stopping, waiting, deleting, freeing, returned, gone, Place,
  testing, calling, exited, polling, ask, delete_if, free_if, close_at,
}
use kafka_client.Producer.Threads.Invariant.{
  Opened, PollsOnly, Goes, opened, stopped, closed, state, Kept, Polls, Inv, Stands, Stands-neutral,
}

module _ (k : Opened) where
  asked :
      (b : Bool) (tr : Trace) (o : Place) (others : List Place)
      → Stands k (opened k) (λ j. false) tr
      → PollsOnly k.object o
      → All (λ o. o ≡ exited) others
      → Inv k (record {
        client = (opened k);
        exists = true;
        trace = tr;
        point = if b then emptying else stopping;
        poller = o;
        others = others;
      })
  asked true tr o others kept polls left = (refl, refl, kept, polls, left)
  asked false tr o others kept polls left = (refl, refl, kept, polls, left)

  joined :
      (env : Env) (tr : Trace) (o : Place) (others : List Place)
      → Stands k (stopped k) (λ j. false) tr
      → All (λ o. o ≡ exited) others
      → Goes (Inv k) (close_at env waiting (state k waiting tr o others))
  unfolding close_at created destroyed needed
  joined env tr exited others kept left =
      (refl, refl, Stands-neutral k (stopped k) (λ j. false) _ tr refl refl tt kept, refl, left)
  joined env tr testing others kept left = tt
  joined env tr calling others kept left = tt
  joined env tr (polling g t) others kept left = tt

  freed_lem :
      (x y w : Bool) {u v : Bool}
      → u ≡ (if y then false else v)
      → v ≡ (if x then false else w)
      → u ≡ (if (if y then true else x) then false else w)
  freed_lem x true w e f = e
  freed_lem x false w e f = e ∙ f

  destructed :
      (tr : Trace)
      → Owns (closed k) tr
      → alive k.object tr ≡ false
      → Kept k gone (destruct (closed k) tr)
  destructed tr held dead =
      let (safe, live, configured, objects) = destruct-Owns (closed k) tr held in
      (
        safe,
        objects k.object
            ∙ if-elim (λ b. b ≡ false)
                (is_deleted_callback k.client.producer_callback.is_default_callback
                  k.client.producer_callback.send_callback k.object)
                refl dead,
      )

  -- One step of `closeKafka` or of the destructor.
  pub close_at-Inv :
      (env : Env) (q : Point) (tr : Trace) (o : Place) (others : List Place)
      → k.client.polling_thread_id ≢ 0
      → Kept k q tr
      → Polls k q o
      → All (λ o. o ≡ exited) others
      → Goes (Inv k) (close_at env q (state k q tr o others))
  unfolding close_at ask created destroyed needed delete_if free_if
  close_at-Inv env entered tr o others id kept polls left = (refl, refl, kept, polls, left)
  close_at-Inv env asking tr o others id kept polls left =
      asked (ltb 0 (env.outq_len tr)) _ o others
        (Stands-neutral k (opened k) (λ j. false) _ tr refl refl ((kept.0).live_o, tt) kept) polls
        left
  close_at-Inv env emptying tr o others id kept polls left = (
    refl,
    refl,
    Stands-neutral k (opened k) (λ j. false) _ tr refl refl ((kept.0).live_o, tt) kept,
    polls,
    left,
  )
  close_at-Inv env stopping tr o others id kept polls left =
      rw not_zero (refl, refl, kept, polls, left)
    where
      not_zero : (k.client.polling_thread_id == 0) ≡ false
      not_zero = ground arith
  close_at-Inv env waiting tr o others id kept polls left = joined env tr o others kept left
  close_at-Inv env deleting tr o others id (held, objects) polls left = (
    refl,
    refl,
    (
      Holds-deleted_object _ k.object tr refl refl (held.live_o, tt) held,
      λ j.
          alive-gone _ k.object j tr refl refl
          ∙ ap (λ b. if k.object == j then false else b) (objects j),
    ),
    polls,
    left,
  )
  close_at-Inv env freeing tr o others id (held, objects) polls left = (
    refl,
    refl,
    (
      Holds-deleted_configuration _ k.configuration tr refl refl (held.live_c, tt) held,
      λ j.
          freed_lem (k.object == j) (k.configuration == j) _
            (alive-gone _ k.configuration j tr refl refl) (objects j),
    ),
    polls,
    left,
  )
  close_at-Inv env returned tr o others id (held, objects) polls left =
      (refl, refl, destructed tr held (objects k.object ∙ lost), polls, left)
    where
      lost :
          (if (if k.configuration == k.object then true else k.object == k.object)
            then false
            else alive k.object k.trace)
          ≡ false
      lost = ground arith
  close_at-Inv env gone tr o others id kept polls left = tt
