-- ===== src/Network/RelayNode.antt =====
-- src/network/relay-node.js: the statistics of a relay, and its handlers of messages and requests.
-- A handler runs without another one in between; what a peer sent is the parsed request, `none`
-- where it does not parse. A relay has no `signFn`, so it stores without proofs of its own.
pub mod Storing
pub mod Fetching
use chainmail_protocol.Base.{
  ℕ, suc, ◌+◌, ◌-◌, Bool, true, false, List, [], ◌∷◌, ◌++◌, Option, none, some, if◌then◌else◌, ◌==◌,
  ◌&&◌, holds, Text, Bytes, codes, length, or_else, text_discrete, map,
}
use chainmail_protocol.Base.Database.{Db}
use chainmail_protocol.Crypto.{Encodings}
use chainmail_protocol.Network.RateLimiter.{Verdict, allowed, denied}
use chainmail_protocol.Network.Reputation.{Limiter, check_and_record}
use chainmail_protocol.Storage.DhtStorage.{
  MessageRecord, Json, message_record, to_json, text_or, store, store_record, get_messages,
  get_message, delete_message, verify_proofs,
}

pub record Stats : Type 0 where
  pub messages_relayed : ℕ
  pub bytes_relayed : ℕ
  pub peers_served : List Text
  pub start_time : ℕ

-- What is kept of the statistics in their database.
pub record SavedStats : Type 0 where
  pub messages_relayed : Option ℕ
  pub bytes_relayed : Option ℕ
  pub last_updated : ℕ

pub record Report : Type 0 where
  pub messages_relayed : ℕ
  pub bytes_relayed : ℕ
  pub peers_served : ℕ
  pub uptime_ms : ℕ

unfoldable pub new_stats : ℕ → Stats
new_stats now = record {
  messages_relayed = 0;
  bytes_relayed = 0;
  peers_served = [];
  start_time = now;
}

unfoldable pub load : Option SavedStats → Stats → Stats
load none s = s
load (some v) s = record s {
  messages_relayed = or_else v.messages_relayed 0;
  bytes_relayed = or_else v.bytes_relayed 0;
}

unfoldable pub save : ℕ → Stats → SavedStats
save now s = record {
  messages_relayed = some s.messages_relayed;
  bytes_relayed = some s.bytes_relayed;
  last_updated = now;
}

unfoldable pub note_message : ℕ → Stats → Stats
note_message size s = record s {
  messages_relayed = s.messages_relayed + 1;
  bytes_relayed = s.bytes_relayed + size;
}

-- A JavaScript `Set` of texts.
unfoldable pub is_seen : Text → List Text → Bool
is_seen t [] = false
is_seen t (u ∷ us) = if holds (text_discrete t u) then true else is_seen t us

unfoldable pub note_peer : Text → Stats → Stats
unfolding is_seen
note_peer peer s = record s {
  peers_served =
      if is_seen peer s.peers_served then s.peers_served else s.peers_served ++ peer ∷ [];
}

unfoldable pub get_stats : ℕ → Stats → Report
get_stats now s = record {
  messages_relayed = s.messages_relayed;
  bytes_relayed = s.bytes_relayed;
  peers_served = length s.peers_served;
  uptime_ms = now - s.start_time;
}

-- What a relay reads of an envelope. A field that is missing or empty is `none`, or empty.
pub record Envelope : Type 0 where
  pub from : Option Text
  pub envelope_type : Text
  pub routing_token : Option Text
  pub to : Option Text

-- A message of the topic: the peer that it came from, and its bytes.
pub record Message : Type 0 where
  pub from : Option Text
  pub bytes : Bytes

abbrev pub text_if_any : Option Text → Option Text
text_if_any none = none
text_if_any (some []) = none
text_if_any (some (c ∷ t)) = some (c ∷ t)

unfoldable pub sender_of : Envelope → Message → Text
sender_of e m = text_or e.from (text_or m.from (codes "unknown"))

unfoldable pub is_sealed : Envelope → Bool
is_sealed e = holds (text_discrete e.envelope_type (codes "sealed"))

-- The key that the message is stored under, if it has one.
abbrev pub token_or : Option Text → Option Text → Option Text
token_or (some t) to = some t
token_or none to = to

unfoldable pub storage_key : Envelope → Option Text
unfolding is_sealed
storage_key e =
    if is_sealed e
    then token_or (text_if_any e.routing_token) (text_if_any e.to)
    else text_if_any e.to

pub record StoreRequest : Type 0 where
  pub action : Text
  pub json : Option Json

pub record FetchRequest : Type 0 where
  pub action : Text
  pub recipient : Option Text
  pub routing_token : Option Text

pub record ProofRequest : Type 0 where
  pub action : Text
  pub recipient : Option Text
  pub message_id : Option Text

pub data Response : Type 0 where
  stored : Text → Response
  found : List Json → Response
  proved : ℕ → ℕ × ℕ → Response
  not_found invalid_request no_address failed : Response
  delivered : List (Text × ℕ) → Response

-- `key.split(':')` and the first two parts of it.
unfoldable pub before_colon : Text → Text
before_colon [] = []
before_colon (c ∷ t) = if c == b':' then [] else c ∷ before_colon t

unfoldable pub after_colon : Text → Text
after_colon [] = []
after_colon (c ∷ t) = if c == b':' then t else after_colon t

-- The records whose id was not seen before, after those that are there.
unfoldable pub add_unseen : List MessageRecord → List MessageRecord → List MessageRecord
unfolding is_seen
add_unseen have [] = have
add_unseen have (r ∷ rs) =
    add_unseen (if is_seen r.id (map (λ q. q.id) have) then have else have ++ r ∷ []) rs

pub record Relay (Store : Type 0) : Type 0 where
  pub limiter : Limiter
  pub stats : Stats
  pub messages : Store

-- What becomes of a message. `crashed` is an exception that nothing catches.
pub data Outcome : Type 0 where
  unparsed crashed kept without_key : Outcome
  limited : Verdict → Outcome

-- When a message is handled, and the two random ids that storing it takes.
pub record Moment : Type 0 where
  pub now : ℕ
  pub today : ℕ
  pub first_id : Text
  pub second_id : Text

abbrev pub stored_key : MessageRecord → Text
stored_key r = r.recipient ++ codes ":" ++ r.id

module _ (c : Encodings) (db : Db Json) where
  -- The coordinator stores the message a second time, before it replicates that record.
  unfoldable pub store_with_replication : Moment → Text → Bytes → db.Store → db.Store
  unfolding store
  store_with_replication t recipient bytes s =
      (store c db none t.second_id t.now recipient (c.to_base64 bytes)
        (store c db none t.first_id t.now recipient (c.to_base64 bytes) s).0).0

  unfoldable pub keep_message :
      Moment → Option Text → Bytes → Relay db.Store → Relay db.Store × Outcome
  unfolding store_with_replication
  keep_message t none bytes r = (r, without_key)
  keep_message t (some key) bytes r =
      (record r { messages = store_with_replication t key bytes r.messages }, kept)

  unfoldable pub handle_envelope :
      Moment → Message → Envelope → Relay db.Store → Relay db.Store × Outcome
  unfolding check_and_record sender_of note_message keep_message storage_key
  handle_envelope t m e r =
      let (limiter', verdict) =
        check_and_record r.limiter t.now t.today (sender_of e m) (length m.bytes) in
      elim verdict [
        | allowed ↦
            keep_message t (storage_key e) m.bytes
              (record r { limiter = limiter'; stats = note_message (length m.bytes) r.stats })
        | denied reason n ↦ (record r { limiter = limiter' }, limited (denied reason n))
      ]

  -- `parse` gives `none` on what is no JSON, and `some none` on `null`.
  unfoldable pub handle_message :
      (Bytes → Option (Option Envelope))
      → Moment
      → Message
      → Relay db.Store
      → Relay db.Store × Outcome
  unfolding handle_envelope
  handle_message parse t m r = elim (parse m.bytes) [
    | none ↦ (r, unparsed)
    | some none ↦ (r, crashed)
    | some (some e) ↦ handle_envelope t m e r
  ]

  unfoldable pub store_replica : Moment → Option Json → Relay db.Store → Relay db.Store × Response
  unfolding store_record message_record note_message
  store_replica t none r = (r, invalid_request)
  store_replica t (some v) r =
      let q = message_record t.first_id t.now v in
      (
        record r {
          messages = (store_record c db none t.now q r.messages).0;
          stats = note_message (length q.message_data) r.stats;
        },
        stored q.id,
      )

  unfoldable pub handle_store_request :
      Option StoreRequest → Moment → Relay db.Store → Relay db.Store × Response
  unfolding store_replica
  handle_store_request none t r = (r, failed)
  handle_store_request (some q) t r =
      if holds (text_discrete q.action (codes "store"))
      then store_replica t q.json r
      else (r, invalid_request)

  unfoldable pub prove_record : Option MessageRecord → Response
  unfolding verify_proofs
  prove_record none = not_found
  prove_record (some r) = proved r.replication_count (verify_proofs c r)

  abbrev pub prove_message : Option Text → Option Text → Text → ℕ → db.Store → Response
  prove_message (some recipient) (some id) fresh now s =
      prove_record (get_message db fresh now recipient id s)
  prove_message _ _ fresh now s = invalid_request

  unfoldable pub handle_proof_request : Option ProofRequest → Text → ℕ → db.Store → Response
  unfolding get_message prove_record
  handle_proof_request none fresh now s = failed
  handle_proof_request (some q) fresh now s =
      if holds (text_discrete q.action (codes "verify"))
      then prove_message (text_if_any q.recipient) (text_if_any q.message_id) fresh now s
      else invalid_request

module _ (db : Db Json) where
  abbrev pub messages_of : Text → ℕ → Option Text → db.Store → List MessageRecord
  messages_of fresh now none s = []
  messages_of fresh now (some key) s = get_messages db fresh now key s

  -- The records under the address, and then those under the routing token.
  unfoldable pub fetch_records : Text → ℕ → FetchRequest → db.Store → List MessageRecord
  unfolding get_messages add_unseen
  fetch_records fresh now q s =
      add_unseen (add_unseen [] (messages_of fresh now (text_if_any q.recipient) s))
        (messages_of fresh now (text_if_any q.routing_token) s)

  abbrev pub names_key : Option Text → Option Text → Bool
  names_key none none = false
  names_key _ _ = true

  unfoldable pub handle_dht_fetch_request : Option FetchRequest → Text → ℕ → db.Store → Response
  unfolding fetch_records to_json
  handle_dht_fetch_request none fresh now s = failed
  handle_dht_fetch_request (some q) fresh now s =
      if holds (text_discrete q.action (codes "fetch"))
        && names_key (text_if_any q.recipient) (text_if_any q.routing_token)
      then found (map to_json (fetch_records fresh now q s))
      else invalid_request

  unfoldable pub delete_stored_message : Text → db.Store → db.Store
  unfolding delete_message before_colon after_colon
  delete_stored_message key s =
      delete_message db (before_colon key) (before_colon (after_colon key)) s

  unfoldable pub delete_delivered : List MessageRecord → db.Store → db.Store
  unfolding delete_stored_message
  delete_delivered [] s = s
  delete_delivered (r ∷ rs) s = delete_delivered rs (delete_stored_message (stored_key r) s)

  -- The messages of the address are sent, and then deleted.
  unfoldable pub deliver : Text → Text → ℕ → Relay db.Store → Relay db.Store × Response
  unfolding get_messages delete_delivered note_message
  deliver address fresh now r =
      let rs = get_messages db fresh now address r.messages in
      (
        record r {
          messages = delete_delivered rs r.messages;
          stats = note_message (length rs) r.stats;
        },
        delivered (map (λ q. (q.message_data, q.timestamp)) rs),
      )

  unfoldable pub handle_fetch_request :
      Option (Option Text) → Text → ℕ → Relay db.Store → Relay db.Store × Response
  unfolding deliver
  handle_fetch_request none fresh now r = (r, failed)
  handle_fetch_request (some none) fresh now r = (r, no_address)
  handle_fetch_request (some (some [])) fresh now r = (r, no_address)
  handle_fetch_request (some (some (a ∷ address))) fresh now r = deliver (a ∷ address) fresh now r
