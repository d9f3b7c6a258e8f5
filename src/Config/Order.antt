-- ===== src/Config/Order.antt =====
-- In which order the properties reach the library, and where the loop stops.
use kafka_client.Base.{ℕ, ◌≡◌, refl, ◌≢◌, ◌⊎◌, inl, inr, true, false, [], ◌∷◌, ◌++◌, ap}
use kafka_client.Base.Text.{Text}
use kafka_client.Base.Map.{Map}
use kafka_client.Kafka.{Env, Trace, conf_set, conf_ok, conf_unknown, conf_invalid, ConfResult}
use kafka_client.Config.{is_conf_ok, set_all}

pub answer-cases : (r : ConfResult) → (r ≡ conf_ok) ⊎ ((is_conf_ok r ≡ false) × (r ≢ conf_ok))
answer-cases conf_ok = inl refl
answer-cases conf_unknown = inr (refl, λ e. cc)
answer-cases conf_invalid = inr (refl, λ e. cc)

module _ (env : Env) (conf : ℕ) where
  -- The calls of a loop in which every property was accepted.
  abbrev pub all_set : Map → Trace → Trace
  all_set [] tr = tr
  all_set ((k, v) ∷ m) tr = all_set m (conf_set conf k v conf_ok ∷ tr)

  -- The library accepts every property, in the order of the map.
  abbrev pub AllAccepted : Map → Trace → Type 0
  AllAccepted [] tr = Unit
  AllAccepted ((k, v) ∷ m) tr =
      (env.conf_set tr k v ≡ conf_ok) × AllAccepted m (conf_set conf k v conf_ok ∷ tr)

  -- Where a loop stopped: the properties before were accepted, the one at hand was refused.
  pub record Stopped (m : Map) (tr tr' : Trace) : Type 0 where
    pub before : Map
    pub name : Text
    pub value : Text
    pub after : Map
    pub split : m ≡ before ++ ((name, value) ∷ after)
    pub accepted : AllAccepted before tr
    pub refused : env.conf_set (all_set before tr) name value ≢ conf_ok
    pub calls :
        tr'
        ≡ conf_set conf name value (env.conf_set (all_set before tr) name value) ∷ all_set before tr

  Stopped-cons :
      (k v : Text) (m : Map) (tr tr' : Trace)
      → env.conf_set tr k v ≡ conf_ok
      → Stopped m (conf_set conf k v conf_ok ∷ tr) tr'
      → Stopped ((k, v) ∷ m) tr tr'
  Stopped-cons k v m tr tr' h s = record {
    before = (k, v) ∷ s.before;
    name = s.name;
    value = s.value;
    after = s.after;
    split = ap (λ t. (k, v) ∷ t) s.split;
    accepted = (h, s.accepted);
    refused = s.refused;
    calls = s.calls;
  }

  pub set_all-AllAccepted :
      (m : Map) (tr : Trace) → AllAccepted m tr → set_all env conf m tr ≡ (true, all_set m tr)
  unfolding set_all
  set_all-AllAccepted [] tr h = refl
  set_all-AllAccepted ((k, v) ∷ m) tr h =
      rw h.0 (set_all-AllAccepted m (conf_set conf k v conf_ok ∷ tr) h.1)

  -- The loop succeeds exactly if every property is accepted, and then it has set all of them, in
  -- the map's order; if it fails, it has stopped at the first property that was refused.
  pub set_all-stops :
      (m : Map) (tr : Trace)
      → ((set_all env conf m tr ≡ (true, all_set m tr)) × AllAccepted m tr)
        ⊎ (((set_all env conf m tr).0 ≡ false) × Stopped m tr (set_all env conf m tr).1)
  unfolding set_all
  set_all-stops [] tr = inl (refl, tt)
  set_all-stops ((k, v) ∷ m) tr = elim (answer-cases (env.conf_set tr k v)) [
    | inl h ↦ rw h (elim (set_all-stops m (conf_set conf k v conf_ok ∷ tr)) [
      | inl (e, accepted) ↦ inl (e, (refl, accepted))
      | inr (f, s) ↦ inr (f, Stopped-cons k v m tr _ h s)
    ])
    | inr (refused, ne) ↦ inr (
      rw refused,
      record {
        before = [];
        name = k;
        value = v;
        after = m;
        split = refl;
        accepted = tt;
        refused = ne;
        calls = rw refused refl;
      },
    )
  ]
