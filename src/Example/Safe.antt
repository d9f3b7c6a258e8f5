-- ===== src/Example/Safe.antt =====
-- No call of the example uses an object that is gone.
use kafka_client.Base.{
  ℕ, ◌≡◌, refl, Bool, true, Bool-cases, inl, inr, Option, none, some, [], ◌∷◌, if-elim,
}
use mathlib.Core.Path.{subst}
use kafka_client.Base.Int.{ℤ, pos}
use kafka_client.Base.Text.{codes}
use kafka_client.Kafka.{
  Env, Trace, Result, ok, ◌>>=◌, >>=-eq-ok, ok-injective, IsSafe, created, destroyed, needed,
  delete_send_callback, wait_destroyed,
}
use kafka_client.Ownership.{Holds, Holds-neutral}
use kafka_client.Callback.Delivery as Delivery
use kafka_client.Callback.Delivery.{ProducerCallback}
use kafka_client.Producer.State as Producer
use kafka_client.Producer.State.{KafkaProducer, set_topic}
use kafka_client.Producer.Send.{send}
use kafka_client.Producer.Send.Owned.{send-Holds}
use kafka_client.Producer.Lifecycle as ProducerLifecycle
use kafka_client.Producer.Lifecycle.Owned.{Owns}
use kafka_client.Producer.Lifecycle.Closing.{close_kafka_returns-Owns}
use kafka_client.Producer.Lifecycle.Reachable.{constructed, initialised, Reach-Owns}
use kafka_client.Consumer.State as Consumer
use kafka_client.Consumer.State.{KafkaConsumer}
use kafka_client.Consumer.Lifecycle as ConsumerLifecycle
use kafka_client.Consumer.Lifecycle.Outcome.{init_kafka-Holds, close_kafka_returns-Holds}
use kafka_client.Example.{
  brokers, config_map, config_consume_map, example_message, nothing, consume_all, consume_and_close,
  run_consumer, send_and_close, run_initialised, run,
}
use kafka_client.Example.Runs.{consume_all-Holds}

-- Only the callback is looked at.
pub callback_only : {o c s : Option ℕ} (tr : Trace) → Holds o c s tr → Holds none none s tr
callback_only tr held = record {
  safe = held.safe;
  numbered = held.numbered;
  live_o = tt;
  live_c = tt;
  live_s = held.live_s;
  apart_oc = tt;
  apart_os = tt;
  apart_cs = tt;
}

waited-Holds :
    {s : Option ℕ} (z : ℤ) (tr : Trace)
    → Holds none none s tr
    → Holds none none s (wait_destroyed z ∷ tr)
unfolding created destroyed needed
waited-Holds z tr held = Holds-neutral _ tr refl refl tt held

deleted-IsSafe :
    (s : Option ℕ) (tr : Trace)
    → Holds none none s tr
    → IsSafe (elim s [ some h ↦ delete_send_callback h ∷ tr | none ↦ tr ])
unfolding needed
deleted-IsSafe none tr held = held.safe
deleted-IsSafe (some h) tr held = ((held.live_s, tt), held.safe)

destruct-IsSafe :
    (p : KafkaProducer) (tr : Trace)
    → Holds none none p.producer_callback.send_callback tr
    → IsSafe (ProducerLifecycle.destruct p tr)
unfolding ProducerLifecycle.destruct Delivery.destruct
destruct-IsSafe p tr held =
    if-elim {A = ProducerCallback × Trace} (λ r. IsSafe r.1) p.producer_callback.is_default_callback
      (deleted-IsSafe p.producer_callback.send_callback _ (waited-Holds (pos 5000) tr held))
      (waited-Holds (pos 5000) tr held).safe

module _ (env : Env) where
  consume_and_close-Holds :
      {s : Option ℕ} (rounds : ℕ) (b : Bool) (c : KafkaConsumer) (tr tr' : Trace)
      → Holds c.consumer c.global_conf s tr
      → consume_and_close env rounds (b, c, tr) ≡ ok tr'
      → Holds none none s tr'
  unfolding consume_and_close Consumer.set_debug_mode ConsumerLifecycle.destruct
  consume_and_close-Holds {s} rounds b c tr tr' held e = elim (Bool-cases b) [
    | inr failed ↦
        subst (Holds none none s) (ok-injective (rw failed at e))
          (waited-Holds (pos 5000) tr (callback_only tr held))
    | inl good ↦
        let (tr₁, consumed, rest) =
          >>=-eq-ok (consume_all env rounds c nothing tr) then_close (rw good at e) in
        let ((c', tr₂), closed, done) =
          >>=-eq-ok (ConsumerLifecycle.close_kafka (Consumer.set_debug_mode true c) tr₁)
            then_destruct rest in
        subst (Holds none none s) (ok-injective done) (
          waited-Holds (pos 5000) tr₂ (
            callback_only tr₂ (
              close_kafka_returns-Holds (Consumer.set_debug_mode true c) c' tr₁ tr₂
                (consume_all-Holds env rounds c nothing tr tr₁ held consumed) closed)))
  ]
    where
      then_destruct : KafkaConsumer × Trace → Result Trace
      then_destruct (c', t) = ok (ConsumerLifecycle.destruct t)

      then_close : Trace → Result Trace
      then_close t =
          ConsumerLifecycle.close_kafka (Consumer.set_debug_mode true c) t >>= then_destruct

  run_consumer-Holds :
      {s : Option ℕ} (junk : ℤ) (rounds : ℕ) (tr tr' : Trace)
      → Holds none none s tr
      → run_consumer env junk rounds tr ≡ ok tr'
      → Holds none none s tr'
  unfolding run_consumer Consumer.construct
  run_consumer-Holds {s} junk rounds tr tr' held e =
      consume_and_close-Holds rounds _ _ _ tr'
        (init_kafka-Holds env config_consume_map brokers (codes "ppp_thumb" ∷ [])
          (codes "test-consumer") (pos 5000) (Consumer.construct junk) tr held)
        e

  pub send_and_close-Owns :
      (fuel : ℕ) (p p' : KafkaProducer) (tr tr' : Trace)
      → Owns p tr
      → send_and_close env fuel p tr ≡ ok (p', tr')
      → Owns p' tr'
  unfolding send_and_close Producer.set_debug_mode set_topic
  send_and_close-Owns fuel p p' tr tr' held e =
      let ((b, tr₁), sent, closed) =
        >>=-eq-ok (send env (set_topic (codes "ppp_thumb") p) example_message tr) then_close e in
      close_kafka_returns-Owns env fuel
        (Producer.set_debug_mode true (set_topic (codes "ppp_thumb") p)) tr₁ p' tr'
        (send-Holds env (set_topic (codes "ppp_thumb") p) example_message b tr tr₁ held sent) closed
    where
      then_close : Bool × Trace → Result (KafkaProducer × Trace)
      then_close (b, t) =
          ProducerLifecycle.close_kafka env fuel
            (Producer.set_debug_mode true (set_topic (codes "ppp_thumb") p)) t

  run_initialised-IsSafe :
      (junk : ℤ) (fuel rounds : ℕ) (b : Bool) (p : KafkaProducer) (tr tr' : Trace)
      → Owns p tr
      → run_initialised env junk fuel rounds (b, p, tr) ≡ ok tr'
      → IsSafe tr'
  unfolding run_initialised
  run_initialised-IsSafe junk fuel rounds b p tr tr' held e = elim (Bool-cases b) [
    | inr failed ↦
        subst IsSafe (ok-injective (rw failed at e)) (destruct-IsSafe p tr (callback_only tr held))
    | inl good ↦
        let ((p', tr₁), closed, rest) =
          >>=-eq-ok (send_and_close env fuel p tr) then_consume (rw good at e) in
        let (tr₂, consumed, done) =
          >>=-eq-ok (run_consumer env junk rounds tr₁) (then_destruct p') rest in
        subst IsSafe (ok-injective done) (
          destruct-IsSafe p' tr₂ (
            run_consumer-Holds junk rounds tr₁ tr₂
              (callback_only tr₁ (send_and_close-Owns fuel p p' tr tr₁ held closed)) consumed))
  ]
    where
      then_destruct : KafkaProducer → Trace → Result Trace
      then_destruct p' t = ok (ProducerLifecycle.destruct p' t)

      then_consume : KafkaProducer × Trace → Result Trace
      then_consume (p', t) = run_consumer env junk rounds t >>= then_destruct p'

  -- Whatever the library answers: when `main` returns, on either of its early returns or at its
  -- end, none of its calls, those of the destructors included, has used or deleted an object that
  -- was gone.
  pub run-IsSafe :
      (junk_thread : ℕ) (junk : ℤ) (fuel rounds : ℕ) (tr' : Trace)
      → run env junk_thread junk fuel rounds ≡ ok tr'
      → IsSafe tr'
  unfolding run
  run-IsSafe junk_thread junk fuel rounds tr' e =
      run_initialised-IsSafe junk fuel rounds _ _ _ tr'
        (Reach-Owns (
          initialised config_map brokers (codes "test-agent") none (pos 1000) tt
            (constructed junk_thread)))
        e
