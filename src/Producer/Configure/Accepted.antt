-- ===== src/Producer/Configure/Accepted.antt =====
-- When `_setProducerConfiguration` answers `true`, and what it has done then.
use kafka_client.Base.{ℕ, ◌≡◌, refl, ◌⊎◌, inl, inr, Bool, true, false, Option, ◌∷◌, ap, contrary}
use kafka_client.Base.Text.{Text, c_string}
use kafka_client.Base.Map.{Map}
use kafka_client.Kafka.{Env, Trace, conf_set, conf_set_event_cb, conf_set_dr_cb, conf_ok}
use kafka_client.Config.Order.{
  all_set, AllAccepted, set_all-AllAccepted, set_all-stops, answer-cases,
}
use kafka_client.Callback.Delivery.{ProducerCallback}
use kafka_client.Producer.Configure.{
  bootstrap_servers, register, set_producer_configuration, finish_configuration,
}
use kafka_client.Producer.Configure.Order.{mandatory}

module _ (env : Env) (conf : ℕ) (custom : Map) where
  FinishAccepts : Trace → Type 0
  FinishAccepts tr =
      (env.conf_set_dr_cb tr ≡ conf_ok)
      × AllAccepted env conf custom (conf_set_dr_cb conf conf_ok ∷ tr)

  finish_configuration-FinishAccepts :
      (k : ProducerCallback) (tr : Trace)
      → let result = finish_configuration env conf custom k tr in
        (FinishAccepts tr
          × (result ≡ (true, k, all_set env conf custom (conf_set_dr_cb conf conf_ok ∷ tr))))
        ⊎ (¬ FinishAccepts tr × (result.0 ≡ false))
  unfolding finish_configuration FinishAccepts
  finish_configuration-FinishAccepts k tr = elim (answer-cases (env.conf_set_dr_cb tr)) [
    | inr (no_dr, ne) ↦ inr (λ s. ne s.0, rw no_dr refl)
    | inl dr ↦ elim (set_all-stops env conf custom (conf_set_dr_cb conf conf_ok ∷ tr)) [
      | inl (e, accepted) ↦ inl ((dr, accepted), rw (dr, e) refl)
      | inr (failed, stopped) ↦ inr (
        λ s. contrary failed (
            ap (λ (r : Bool × Trace). r.0)
              (set_all-AllAccepted env conf custom (conf_set_dr_cb conf conf_ok ∷ tr) s.1)),
        rw dr failed,
      )
    ]
  ]

  module _ (brokers : Text) (callback : Option ℕ) (k : ProducerCallback) (tr : Trace) where
    -- The calls before the callback is registered.
    abbrev pub before_register : Trace
    before_register =
        conf_set_event_cb conf conf_ok
        ∷ conf_set conf bootstrap_servers (c_string brokers) conf_ok
        ∷ tr

    abbrev pub registered : ProducerCallback × Trace
    registered = register env conf callback k before_register

    -- The library accepts the brokers, both callbacks and every property of the caller.
    abbrev pub Accepts : Type 0
    Accepts =
        (env.conf_set tr bootstrap_servers (c_string brokers) ≡ conf_ok)
        × (env.conf_set_event_cb (conf_set conf bootstrap_servers (c_string brokers) conf_ok ∷ tr)
            ≡ conf_ok)
        × (env.conf_set_dr_cb registered.1 ≡ conf_ok)
        × AllAccepted env conf custom (mandatory env conf brokers callback k tr)

    -- `_setProducerConfiguration` answers `true` exactly if the library accepts everything. Then the
    -- caller's callback is registered, and the calls were: the brokers, the callback for events, the
    -- registration, the callback for reports, and the caller's properties in their order.
    pub set_producer_configuration-Accepts :
        let result = set_producer_configuration env conf brokers custom callback k tr in
        (Accepts
          × (result ≡ (
            true,
            registered.0,
            all_set env conf custom (mandatory env conf brokers callback k tr),
          )))
        ⊎ (¬ Accepts × (result.0 ≡ false))
    unfolding set_producer_configuration FinishAccepts
    set_producer_configuration-Accepts =
        elim (answer-cases (env.conf_set tr bootstrap_servers (c_string brokers))) [
          | inr (no_brokers, ne) ↦ inr (λ s. ne s.0, rw no_brokers refl)
          | inl good ↦
              elim (answer-cases (
                env.conf_set_event_cb
                  (conf_set conf bootstrap_servers (c_string brokers) conf_ok ∷ tr))) [
                    | inr (no_events, ne) ↦ inr (λ s. ne s.1, rw (good, no_events) refl)
                    | inl events ↦
                        elim (finish_configuration-FinishAccepts registered.0 registered.1) [
                          | inl (rest, e) ↦
                              inl ((good, events, rest.0, rest.1), rw (good, events) e)
                          | inr (no_rest, e) ↦ inr (λ s. no_rest (s.2, s.3), rw (good, events) e)
                        ]
                  ]
        ]
