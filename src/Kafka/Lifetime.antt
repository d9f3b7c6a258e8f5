-- ===== src/Kafka/Lifetime.antt =====
-- Which objects exist after a trace, and when every call of a trace had objects that existed.
use kafka_client.Base.{
  ℕ, ◌≡◌, refl, Bool, true, false, Option, none, some, List, [], ◌∷◌, ◌==◌, if◌then◌else◌, All,
}
use kafka_client.Kafka.Errors.{is_no_error}
use kafka_client.Kafka.Calls.{
  Call, Trace, new_send_callback, delete_send_callback, conf_create, delete_conf, conf_set,
  conf_set_event_cb, conf_set_dr_cb, producer_create, poll, outq_len, produce, delete_producer,
  headers_create, delete_headers, headers_add, consumer_create, subscribe, consume, delete_message,
  consumer_close, delete_consumer,
}

-- The object that a call creates.
unfoldable pub created : Call → Option ℕ
created (new_send_callback h) = some h
created (conf_create h) = some h
created (producer_create c o) = o
created (headers_create h) = some h
created (consumer_create c o) = o
created (consume c t h m) = some h
created _ = none

-- The object that is gone after a call. A `produce` that succeeds takes the headers over.
unfoldable pub destroyed : Call → Option ℕ
destroyed (delete_send_callback h) = some h
destroyed (delete_conf h) = some h
destroyed (produce p r e) = if is_no_error e then some r.headers else none
destroyed (delete_producer h) = some h
destroyed (delete_headers h) = some h
destroyed (delete_message h) = some h
destroyed (delete_consumer h) = some h
destroyed _ = none

-- The objects that must exist for a call.
unfoldable pub needed : Call → List ℕ
needed (delete_send_callback h) = h ∷ []
needed (delete_conf h) = h ∷ []
needed (conf_set h k v r) = h ∷ []
needed (conf_set_event_cb h r) = h ∷ []
needed (conf_set_dr_cb h r) = h ∷ []
needed (producer_create c o) = c ∷ []
needed (poll h t) = h ∷ []
needed (outq_len h n) = h ∷ []
needed (produce p r e) = p ∷ r.headers ∷ []
needed (delete_producer h) = h ∷ []
needed (delete_headers h) = h ∷ []
needed (headers_add h k v e) = h ∷ []
needed (consumer_create c o) = c ∷ []
needed (subscribe h t e) = h ∷ []
needed (consume h t m r) = h ∷ []
needed (delete_message h) = h ∷ []
needed (consumer_close h) = h ∷ []
needed (delete_consumer h) = h ∷ []
needed _ = []

abbrev pub is_handle : ℕ → Option ℕ → Bool
is_handle h none = false
is_handle h (some j) = j == h

-- Whether an object exists after the calls: it was created and not destroyed since.
unfoldable pub alive : ℕ → Trace → Bool
unfolding created destroyed
alive h [] = false
alive h (c ∷ tr) =
    let before = alive h tr in
    if is_handle h (destroyed c) then false else if is_handle h (created c) then true else before

-- No call used or deleted an object that did not exist: no use after free, no double free.
abbrev pub IsSafe : Trace → Type 0
IsSafe [] = Unit
IsSafe (c ∷ tr) = All (λ h. alive h tr ≡ true) (needed c) × IsSafe tr

pub alive-cons :
    (h : ℕ) (c : Call) (tr : Trace)
    → alive h (c ∷ tr) ≡ (
        if is_handle h (destroyed c)
        then false
        else if is_handle h (created c)
        then true
        else alive h tr)
unfolding alive
alive-cons h c tr = refl
