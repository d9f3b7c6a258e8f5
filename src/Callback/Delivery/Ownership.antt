-- ===== src/Callback/Delivery/Ownership.antt =====
-- Who owns the callback object.
use kafka_client.Base.{
  ℕ, ◌≡◌, refl, ◌≢◌, ◌↔◌, ◌⊎◌, true, false, Option, none, some, ◌∷◌, arith, sym, ◌∙◌, Option-cases,
  inl, inr,
}
use mathlib.Core.Option.{some-injective}
use kafka_client.Kafka.{
  Trace, fresh, ok, fault, null_pointer, Message, not_persisted, alive, IsSafe, needed,
  delete_send_callback,
}
use kafka_client.Callback.Delivery.{
  ProducerCallback, construct, destruct, set_send_callback, success, fail, dr_cb,
}

-- The object that the callback points to exists.
abbrev pub IsLinked : ProducerCallback → Trace → Type 0
IsLinked c tr = (h : ℕ) × (c.send_callback ≡ some h) × (alive h tr ≡ true)

-- What `setSendCallback` and the destructor leave of the object that was registered.
abbrev replaced : Option ℕ → Trace → Trace
replaced o tr = elim o [ some h ↦ delete_send_callback h ∷ tr | none ↦ tr ]

alive-replaced :
    (o : Option ℕ) (tr : Trace) (s : ℕ) → o ≢ some s → alive s (replaced o tr) ≡ alive s tr
unfolding alive
alive-replaced none tr s differ = refl
alive-replaced (some h) tr s differ = ground arith

replaced-IsSafe :
    (o : Option ℕ) (tr : Trace)
    → ((h : ℕ) → o ≡ some h → alive h tr ≡ true)
    → IsSafe tr
    → IsSafe (replaced o tr)
unfolding needed
replaced-IsSafe none tr live safe = safe
replaced-IsSafe (some h) tr live safe = ((live h refl, tt), safe)

replaced-dead : (o : Option ℕ) (tr : Trace) (h : ℕ) → o ≡ some h → alive h (replaced o tr) ≡ false
unfolding alive
replaced-dead none tr h e = cc
replaced-dead (some j) tr h e = ground arith

-- Registering an object that exists deletes the object that was registered, without a use after
-- free; the new object stays linked, if it is another one than before.
pub set_send_callback-IsLinked :
    (c : ProducerCallback) (tr : Trace) (s : ℕ)
    → IsLinked c tr
    → IsSafe tr
    → alive s tr ≡ true
    → c.send_callback ≢ some s
    → let (c', tr') = set_send_callback (some s) c tr in
      IsLinked c' tr' × IsSafe tr' × ((h : ℕ) → c.send_callback ≡ some h → alive h tr' ≡ false)
unfolding set_send_callback
set_send_callback-IsLinked c tr s (h, e, live) safe new differ = (
  (s, refl, alive-replaced c.send_callback tr s differ ∙ new),
  replaced-IsSafe c.send_callback tr (λ j q. rw (← some-injective h j (sym e ∙ q)) live) safe,
  replaced-dead c.send_callback tr,
)

-- Registering the object that is registered already leaves a dangling pointer: it is deleted, and
-- still the one that delivery reports go to.
pub set_send_callback_again :
    (c : ProducerCallback) (tr : Trace) (s : ℕ) (m : Message)
    → c.send_callback ≡ some s
    → let (c', tr') = set_send_callback (some s) c tr in
      (c'.send_callback ≡ some s)
      × (alive s tr' ≡ false)
      × ((dr_cb c' m ≡ ok (success s m)) ⊎ (dr_cb c' m ≡ ok (fail s m)))
unfolding set_send_callback dr_cb
set_send_callback_again c tr s m e = (refl, replaced-dead c.send_callback tr s e, ground arith)

-- After calls that used no object that was gone: the callback object that the constructor creates
-- is deleted by the destructor if it was never replaced, and by `setSendCallback` if it was; after
-- that the destructor leaves the registered object to the application. No call uses an object that
-- is gone.
pub construct-destruct :
    (tr : Trace) (s : Option ℕ)
    → IsSafe tr
    → let (c, tr₁) = construct tr in
      let (d, tr₂) = destruct c tr₁ in
      let (e, tr₃) = set_send_callback s c tr₁ in
      IsSafe tr₂
      × (alive (fresh tr) tr₂ ≡ false)
      × (d.send_callback ≡ none)
      × (destruct e tr₃ ≡ (e, tr₃))
      × IsSafe tr₃
      × (alive (fresh tr) tr₃ ≡ false)
unfolding construct destruct set_send_callback needed alive
construct-destruct tr s safe = ground arith

-- A report goes to the registered object, as a failure exactly for a message that was not
-- persisted; with no object registered there is a null pointer.
pub dr_cb-reports :
    (c : ProducerCallback) (m : Message)
    → ((c.send_callback ≡ none) × (dr_cb c m ≡ fault null_pointer))
      ⊎ ((h : ℕ) × (c.send_callback ≡ some h)
          × ((dr_cb c m ≡ ok (fail h m)) ↔ (m.status ≡ not_persisted))
          × ((dr_cb c m ≡ ok (success h m)) ↔ (m.status ≢ not_persisted)))
unfolding dr_cb
dr_cb-reports c m = elim (Option-cases c.send_callback) [
  | inl missing ↦ inl (missing, ground arith)
  | inr (h, found) ↦ inr (h, found, (ground arith, ground arith), (ground arith, ground arith))
]
