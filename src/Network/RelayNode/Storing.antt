-- ===== src/Network/RelayNode/Storing.antt =====
-- src/network/relay-node.js: what a relay stores, and the limits that it keeps.
use chainmail_protocol.Base.{
  ℕ, ◌≤◌, ◌≡◌, ◌≢◌, refl, sym, ◌∙◌, List, [], ◌∷◌, ◌++◌, Option, none, some, arith, Text, Bytes,
  codes, length, subst,
}
use chainmail_protocol.Base.Database.{Db, DbLaws, get-put_self, get-put_ne}
use chainmail_protocol.Crypto.{Encodings}
use chainmail_protocol.Network.RateLimiter.{Verdict, allowed, denied, requests_of}
use chainmail_protocol.Network.RateLimiter.Window.{length-live_later}
use chainmail_protocol.Network.Reputation.{Limiter, check, check_and_record, note_if_allowed}
use chainmail_protocol.Network.Reputation.Limits.{IsCapped, check_and_record-IsCapped}
use chainmail_protocol.Storage.DhtStorage.{
  Json, MessageRecord, message_key, message_record, to_json, store, store_record, prove,
}
use chainmail_protocol.Network.RelayNode.{
  Relay, Envelope, Message, Moment, Outcome, StoreRequest, sender_of, storage_key,
  store_with_replication, keep_message, handle_envelope, handle_message, kept, limited,
  note_message, handle_store_request, handle_fetch_request, store_replica, deliver,
}

append_cancel : {A : Type 0} (xs ys zs : List A) → xs ++ ys ≡ xs ++ zs → ys ≡ zs
append_cancel [] ys zs h = h
append_cancel (x ∷ xs) ys zs h = append_cancel xs ys zs (ground arith)

message_key_injective : (r a b : Text) → message_key r a ≡ message_key r b → a ≡ b
unfolding message_key
message_key_injective r a b h = append_cancel (r ++ codes ":") a b h

module _ (c : Encodings) (db : Db Json) where
  -- The record of a text that is stored under the id `id`.
  abbrev pub plain_record : Text → ℕ → Text → Text → MessageRecord
  plain_record id now recipient text = message_record id now (record {
    id = none;
    recipient = recipient;
    message_data = text;
    timestamp = some now;
    expires = none;
    storage_proofs = none;
    replication_count = none;
  })

  module _ (laws : DbLaws db) (parse : Bytes → Option (Option Envelope)) where
    get-store_with_replication :
        (t : Moment) (recipient : Text) (bytes : Bytes) (s : db.Store)
        → t.first_id ≢ t.second_id
        → let s' = store_with_replication c db t recipient bytes s in
          (db.get (message_key recipient t.first_id) s'
            ≡ some (to_json (plain_record t.first_id t.now recipient (c.to_base64 bytes))))
          × (db.get (message_key recipient t.second_id) s'
              ≡ some (to_json (plain_record t.second_id t.now recipient (c.to_base64 bytes))))
    unfolding store_with_replication store store_record prove message_record
    get-store_with_replication t recipient bytes s d = (
      get-put_ne laws (key t.first_id) (key t.second_id) (json t.second_id)
            (db.put (key t.first_id) (json t.first_id) s)
            (λ e. d (message_key_injective recipient t.first_id t.second_id e))
          ∙ get-put_self laws (key t.first_id) (json t.first_id) s,
      get-put_self laws (key t.second_id) (json t.second_id)
          (db.put (key t.first_id) (json t.first_id) s),
    )
      where
        key : Text → Text
        key id = message_key recipient id

        json : Text → Json
        json id = to_json (plain_record id t.now recipient (c.to_base64 bytes))

    -- A message that the limiter lets through and that has a key is stored twice: under that key
    -- and two ids there are two records of it, which expire on their own.
    pub handle_message-stores :
        (t : Moment) (m : Message) (e : Envelope) (key : Text) (r : Relay db.Store)
        → parse m.bytes ≡ some (some e)
        → check r.limiter t.now t.today (sender_of e m) (length m.bytes) ≡ allowed
        → storage_key e ≡ some key
        → t.first_id ≢ t.second_id
        → let (r', outcome) = handle_message c db parse t m r in
          (outcome ≡ kept)
          × (db.get (message_key key t.first_id) r'.messages
              ≡ some (to_json (plain_record t.first_id t.now key (c.to_base64 m.bytes))))
          × (db.get (message_key key t.second_id) r'.messages
              ≡ some (to_json (plain_record t.second_id t.now key (c.to_base64 m.bytes))))
    unfolding handle_message handle_envelope keep_message check_and_record
    handle_message-stores t m e key r p v k d =
        ground (arith, p, v, k, get-store_with_replication t key m.bytes r.messages d)

    -- A message that the limiter turns away leaves the relay as it was.
    handle_message-limited :
        (t : Moment) (m : Message) (e : Envelope) (r : Relay db.Store) (v : Verdict)
        → parse m.bytes ≡ some (some e)
        → check r.limiter t.now t.today (sender_of e m) (length m.bytes) ≡ v
        → v ≢ allowed
        → handle_message c db parse t m r ≡ (r, limited v)
    unfolding handle_message handle_envelope check_and_record note_if_allowed
    handle_message-limited t m e r v p h d = ground (arith, p, h)

-- What a relay is asked, each with the time at which it is.
pub data Event : Type 0 where
  messages : Moment → Message → Event
  replicas : Moment → Option StoreRequest → Event
  fetches : ℕ → Text → Option (Option Text) → Event

unfoldable pub time_of : Event → ℕ
time_of (messages t m) = t.now
time_of (replicas t q) = t.now
time_of (fetches now fresh q) = now

-- The clock does not go back.
abbrev pub Rises : ℕ → List Event → Type 0
Rises now [] = Unit
Rises now (e ∷ es) = (now ≤ time_of e) × Rises (time_of e) es

unfoldable pub last_time : ℕ → List Event → ℕ
last_time now [] = now
last_time now (e ∷ es) = last_time (time_of e) es

IsCapped-later : (l : Limiter) (now later : ℕ) → now ≤ later → IsCapped l now → IsCapped l later
IsCapped-later l now later h k s =
    omega
      (arith, k s, length-live_later l.base.window_ms now later (requests_of s l.base.requests) h)

module _ (c : Encodings) (db : Db Json) (parse : Bytes → Option (Option Envelope)) where
  unfoldable pub step : Relay db.Store → Event → Relay db.Store
  step r (messages t m) = (handle_message c db parse t m r).0
  step r (replicas t q) = (handle_store_request c db q t r).0
  step r (fetches now fresh q) = (handle_fetch_request db q fresh now r).0

  unfoldable pub run : Relay db.Store → List Event → Relay db.Store
  unfolding step
  run r [] = r
  run r (e ∷ es) = run (step r e) es

  limiter-store_replica :
      (t : Moment) (v : Option Json) (r : Relay db.Store)
      → (store_replica c db t v r).0.limiter ≡ r.limiter
  unfolding store_replica
  limiter-store_replica t none r = refl
  limiter-store_replica t (some v) r = refl

  limiter-store_request :
      (q : Option StoreRequest) (t : Moment) (r : Relay db.Store)
      → (handle_store_request c db q t r).0.limiter ≡ r.limiter
  unfolding handle_store_request
  limiter-store_request none t r = refl
  limiter-store_request (some q) t r = ground (arith, limiter-store_replica t q.json r)

  limiter-keep_message :
      (t : Moment) (key : Option Text) (bytes : Bytes) (r : Relay db.Store)
      → (keep_message c db t key bytes r).0.limiter ≡ r.limiter
  unfolding keep_message
  limiter-keep_message t none bytes r = refl
  limiter-keep_message t (some key) bytes r = refl

  -- The verdict `v` on an envelope, with the limiter that it leaves.
  limiter-verdict :
      (t : Moment) (m : Message) (key : Option Text) (l : Limiter) (r : Relay db.Store)
      (v : Verdict)
      → (elim v as (λ _. Relay db.Store × Outcome) [
        | allowed ↦
            keep_message c db t key m.bytes
              (record r { limiter = l; stats = note_message (length m.bytes) r.stats })
        | denied reason n ↦ (record r { limiter = l }, limited (denied reason n))
      ]).0.limiter
        ≡ l
  limiter-verdict t m key l r allowed =
      limiter-keep_message t key m.bytes
        (record r { limiter = l; stats = note_message (length m.bytes) r.stats })
  limiter-verdict t m key l r (denied reason n) = refl

  handle_message-IsCapped :
      (t : Moment) (m : Message) (r : Relay db.Store) (p : Option (Option Envelope))
      → parse m.bytes ≡ p
      → IsCapped r.limiter t.now
      → IsCapped (handle_message c db parse t m r).0.limiter t.now
  unfolding handle_message handle_envelope
  handle_message-IsCapped t m r none e k = rw (e, handle_message) k
  handle_message-IsCapped t m r (some none) e k = rw (e, handle_message) k
  handle_message-IsCapped t m r (some (some v)) e k =
      let x : Limiter × Verdict =
        check_and_record r.limiter t.now t.today (sender_of v m) (length m.bytes) in
      rw (e, handle_message)
        (subst (λ l. IsCapped l t.now) (sym (limiter-verdict t m (storage_key v) x.0 r x.1))
          (check_and_record-IsCapped r.limiter t.now t.now t.today (sender_of v m) (length m.bytes)
            (omega arith) k))

  limiter-fetch_request :
      (q : Option (Option Text)) (fresh : Text) (now : ℕ) (r : Relay db.Store)
      → (handle_fetch_request db q fresh now r).0.limiter ≡ r.limiter
  unfolding handle_fetch_request deliver
  limiter-fetch_request none fresh now r = refl
  limiter-fetch_request (some none) fresh now r = refl
  limiter-fetch_request (some (some [])) fresh now r = refl
  limiter-fetch_request (some (some (a ∷ t))) fresh now r = refl

  step-IsCapped :
      (now : ℕ) (r : Relay db.Store) (e : Event)
      → now ≤ time_of e
      → IsCapped r.limiter now
      → IsCapped (step r e).limiter (time_of e)
  unfolding step time_of
  step-IsCapped now r (replicas t q) h k =
      subst (λ l. IsCapped l t.now) (sym (limiter-store_request q t r))
        (IsCapped-later r.limiter now t.now h k)
  step-IsCapped now r (fetches later fresh q) h k =
      subst (λ l. IsCapped l later) (sym (limiter-fetch_request q fresh later r))
        (IsCapped-later r.limiter now later h k)
  step-IsCapped now r (messages t m) h k =
      handle_message-IsCapped t m r (parse m.bytes) refl (IsCapped-later r.limiter now t.now h k)

  -- Whatever messages and requests a relay serves, on a clock that does not go back: no sender has
  -- more than three times the base limit of recorded messages in the window, if none had at first.
  pub run-IsCapped :
      (now : ℕ) (r : Relay db.Store) (es : List Event)
      → Rises now es
      → IsCapped r.limiter now
      → IsCapped (run r es).limiter (last_time now es)
  unfolding run last_time
  run-IsCapped now r [] h k = k
  run-IsCapped now r (e ∷ es) h k =
      run-IsCapped (time_of e) (step r e) es h.1 (step-IsCapped now r e h.0 k)
