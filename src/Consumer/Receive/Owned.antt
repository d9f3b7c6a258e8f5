-- ===== src/Consumer/Receive/Owned.antt =====
-- Consuming keeps what the consumer owns, and what is held beside it.
use kafka_client.Base.{
  ℕ, ◌≡◌, refl, ◌∙◌, sym, Bool, inl, inr, Option, none, some, Option-cases, ◌∷◌,
}
use kafka_client.Kafka.{
  fault-ok, Env, Trace, fresh, ok, fault, null_pointer, consume, delete_message, created, destroyed,
  needed, Call,
}
use kafka_client.Ownership.{Holds}
use kafka_client.Ownership.Created.{Holds-new_other, alive-created_self}
use kafka_client.Ownership.Destroyed.{Holds-deleted_other}
use kafka_client.ReceivedMessage.{ReceivedMessage}
use kafka_client.Consumer.State.{KafkaConsumer}
use kafka_client.Consumer.Receive.{consume_message}
use kafka_client.Consumer.Receive.Outcome.{consume_message-calls}

module _ (env : Env) where
  abbrev pub consumed : ℕ → KafkaConsumer → Trace → Trace
  consumed h c tr =
      delete_message (fresh tr)
      ∷ consume h c.poll_period (fresh tr) (env.consume tr c.poll_period)
      ∷ tr

  pub consumed-Holds :
      {g s : Option ℕ} (h : ℕ) (c : KafkaConsumer) (tr : Trace)
      → Holds (some h) g s tr
      → Holds (some h) g s (consumed h c tr)
  unfolding created destroyed needed
  consumed-Holds {g} {s} h c tr held =
      let (kept, apart_o, apart_c, apart_s) =
        Holds-new_other call tr refl refl {o = some h} {c = g} {s = s} (held.live_o, tt) held in
      Holds-deleted_other _ (fresh tr) _ refl refl (alive-created_self call tr refl refl, tt)
        apart_o apart_c apart_s kept
    where
      call : Call
      call = consume h c.poll_period (fresh tr) (env.consume tr c.poll_period)

  consume_message-no_consumer :
      (c : KafkaConsumer) (r : ReceivedMessage) (tr : Trace)
      → c.consumer ≡ none
      → consume_message env c r tr ≡ fault null_pointer
  unfolding consume_message
  consume_message-no_consumer c r tr e = rw e

  pub consume_message-Holds :
      {s : Option ℕ} (c : KafkaConsumer) (r r' : ReceivedMessage) (b : Bool) (tr tr' : Trace)
      → Holds c.consumer c.global_conf s tr
      → consume_message env c r tr ≡ ok (b, r', tr')
      → Holds c.consumer c.global_conf s tr'
  consume_message-Holds {s} c r r' b tr tr' held e = elim (Option-cases c.consumer) [
    | inl missing ↦ absurd (fault-ok (sym (consume_message-no_consumer c r tr missing) ∙ e))
    | inr (h, found) ↦
        rw (found, consume_message-calls env c r r' b tr tr' h found e)
          (consumed-Holds h c tr (rw found at held))
  ]
