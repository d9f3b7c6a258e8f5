-- ===== src/Config.antt =====
-- The loop over the caller's configuration that `_setProducerConfiguration` (KafkaProducer.cpp) and
-- `_setConsumerConfiguration` (KafkaConsumer.cpp) share, and one call of `Conf::set`.
pub mod Order
pub mod Owned
use kafka_client.Base.{ℕ, Bool, true, false, List, [], ◌∷◌, if◌then◌else◌}
use kafka_client.Base.Text.{Text}
use kafka_client.Base.Map.{Map}
use kafka_client.Kafka.{Env, Trace, conf_set, ConfResult, conf_ok}

-- `result == Conf::CONF_OK`
abbrev pub is_conf_ok : ConfResult → Bool
is_conf_ok conf_ok = true
is_conf_ok r = false

module _ (env : Env) (conf : ℕ) where
  -- `_globalConf->set(k, v, errorString)`, its answer and the calls so far.
  abbrev pub set_property : Text → Text → Trace → Bool × Trace
  set_property k v tr = let r = env.conf_set tr k v in (is_conf_ok r, conf_set conf k v r ∷ tr)

  -- The loop over the map: it ends at the first property that is refused.
  unfoldable pub set_all : Map → Trace → Bool × Trace
  set_all [] tr = (true, tr)
  set_all ((k, v) ∷ m) tr =
      let (accepted, tr') = set_property k v tr in
      let rest = set_all m tr' in if accepted then rest else (false, tr')
