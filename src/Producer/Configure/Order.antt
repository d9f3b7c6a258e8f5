-- ===== src/Producer/Configure/Order.antt =====
-- In which order a producer is configured.
use kafka_client.Base.{ℕ, ◌≡◌, inl, inr, true, Option, ◌∷◌, arith, contrary, refl}
use kafka_client.Base.Text.{Text, c_string}
use kafka_client.Base.Map.{Map}
use kafka_client.Kafka.{Env, Trace, conf_set, conf_set_event_cb, conf_set_dr_cb, conf_ok}
use kafka_client.Config.Order.{all_set, AllAccepted, set_all-stops, answer-cases}
use kafka_client.Callback.Delivery.{ProducerCallback}
use kafka_client.Producer.Configure.{
  bootstrap_servers, register, set_producer_configuration, finish_configuration,
}

module _ (env : Env) (conf : ℕ) where
  -- The calls before the loop over the caller's properties.
  abbrev pub mandatory : Text → Option ℕ → ProducerCallback → Trace → Trace
  mandatory brokers callback k tr =
      conf_set_dr_cb conf conf_ok
      ∷ (register env conf callback k (
          conf_set_event_cb conf conf_ok
          ∷ conf_set conf bootstrap_servers (c_string brokers) conf_ok
          ∷ tr)).1

  finish_configuration-true :
      (custom : Map) (k : ProducerCallback) (tr : Trace)
      → let (b, k', tr') = finish_configuration env conf custom k tr in
        b ≡ true
        → (tr' ≡ all_set env conf custom (conf_set_dr_cb conf conf_ok ∷ tr))
          × AllAccepted env conf custom (conf_set_dr_cb conf conf_ok ∷ tr)
          × (k' ≡ k)
  unfolding finish_configuration
  finish_configuration-true custom k tr finished = elim (answer-cases (env.conf_set_dr_cb tr)) [
    | inr (refused, ne) ↦ ground arith
    | inl accepted ↦ elim (set_all-stops env conf custom (conf_set_dr_cb conf conf_ok ∷ tr)) [
      | inl (e, all) ↦ (rw (accepted, e), all, rw accepted)
      | inr (failed, stopped) ↦ ground arith
    ]
  ]

  -- When `_setProducerConfiguration` answers `true`, its calls have set the brokers, the two
  -- callbacks and then the caller's properties, in this order, with the callback of the caller
  -- registered before `dr_cb`, and the library has accepted each of the caller's properties.
  pub set_producer_configuration-true :
      (brokers : Text) (custom : Map) (callback : Option ℕ) (k : ProducerCallback) (tr : Trace)
      → (set_producer_configuration env conf brokers custom callback k tr).0 ≡ true
      → ((set_producer_configuration env conf brokers custom callback k tr).2
          ≡ all_set env conf custom (mandatory brokers callback k tr))
        × AllAccepted env conf custom (mandatory brokers callback k tr)
  unfolding set_producer_configuration
  set_producer_configuration-true brokers custom callback k tr configured =
      elim (answer-cases (env.conf_set tr bootstrap_servers (c_string brokers))) [
        | inr (refused, ne) ↦ contrary refl (rw refused at configured)
        | inl accepted₁ ↦ elim (answer-cases (env.conf_set_event_cb tr₁)) [
          | inr (refused, ne) ↦ contrary refl (rw (accepted₁, refused) at configured)
          | inl accepted₂ ↦
              let finished =
                finish_configuration-true custom registered.0 registered.1
                  (rw (accepted₁, accepted₂) at configured) in
              (rw (accepted₁, accepted₂) finished.0, finished.1)
        ]
      ]
    where
      tr₁ : Trace
      tr₁ = conf_set conf bootstrap_servers (c_string brokers) conf_ok ∷ tr

      registered : ProducerCallback × Trace
      registered = register env conf callback k (conf_set_event_cb conf conf_ok ∷ tr₁)
