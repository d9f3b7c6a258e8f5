-- ===== src/Producer/Configure.antt =====
-- `_setProducerConfiguration`
pub mod Order
pub mod Owned
pub mod Accepted
use kafka_client.Base.{ℕ, Bool, false, Option, none, some, ◌∷◌, if◌then◌else◌}
use kafka_client.Base.Text.{Text, codes, c_string}
use kafka_client.Base.Map.{Map}
use kafka_client.Kafka.{Env, Trace, conf_set_event_cb, conf_set_dr_cb}
use kafka_client.Config.{is_conf_ok, set_property, set_all}
use kafka_client.Callback.Delivery.{ProducerCallback, set_send_callback}

abbrev pub bootstrap_servers : Text
bootstrap_servers = codes "bootstrap.servers"

module _ (env : Env) (conf : ℕ) where
  -- `set("event_cb", &_producerEventCallback, ...)` and `set("dr_cb", &_producerCallback, ...)`
  abbrev pub set_event_cb : Trace → Bool × Trace
  set_event_cb tr =
      let r = env.conf_set_event_cb tr in (is_conf_ok r, conf_set_event_cb conf r ∷ tr)

  abbrev pub set_dr_cb : Trace → Bool × Trace
  set_dr_cb tr = let r = env.conf_set_dr_cb tr in (is_conf_ok r, conf_set_dr_cb conf r ∷ tr)

  -- The callback that the caller gave is registered first, whatever `set` answers then.
  abbrev pub register : Option ℕ → ProducerCallback → Trace → ProducerCallback × Trace
  register none c tr = (c, tr)
  register (some h) c tr = set_send_callback (some h) c tr

  -- `dr_cb` and then the caller's properties.
  unfoldable pub finish_configuration :
      Map → ProducerCallback → Trace → Bool × ProducerCallback × Trace
  finish_configuration custom c tr =
      let (accepted, tr') = set_dr_cb tr in
      let (finished, tr'') = set_all env conf custom tr' in
      if accepted then (finished, c, tr'') else (false, c, tr')

  unfoldable pub set_producer_configuration :
      Text → Map → Option ℕ → ProducerCallback → Trace → Bool × ProducerCallback × Trace
  set_producer_configuration brokers custom callback c tr =
      let (accepted₁, tr₁) = set_property env conf bootstrap_servers (c_string brokers) tr in
      let (accepted₂, tr₂) = set_event_cb tr₁ in
      let (c', tr₃) = register callback c tr₂ in
      let finished = finish_configuration custom c' tr₃ in
      if accepted₁ then if accepted₂ then finished else (false, c, tr₂) else (false, c, tr₁)
