-- ===== src/Network/MailNode/Operations.antt =====
-- src/network/node.js: what a node does with its mailbox, and with what its peers answer.
use chainmail_protocol.Base.{
  ℕ, Bool, true, false, List, [], ◌∷◌, ◌++◌, Option, none, some, if◌then◌else◌, leb, holds, Text,
  Bytes, codes, text_discrete, starts_with, drop,
}
use chainmail_protocol.Base.Database.{Db}
use chainmail_protocol.Base.Sort.{sort}
use chainmail_protocol.Crypto.{Primitives, Encodings}
use chainmail_protocol.Network.RelayNode.{Response, found, delivered, StoreRequest, is_seen}
use chainmail_protocol.Network.MailNode.{
  Envelope, Entry, inbox_entry, sent_entry, Message, Format, Answers, Node, Fetched, inbox_key,
  sent_key, is_for_us, storage_key, get_message_id, read_data, fetch_messages_from_peer, id_of,
}
use chainmail_protocol.Storage.DhtStorage.{Json, text_or}

-- `{ id: key.slice(6), ...value }`: an id that the envelope brings along takes the place of the key's.
abbrev pub shown_id : Option Text → Text → Text
shown_id none key = key
shown_id (some id) key = id

abbrev pub list_entry : Text → Entry → List Message → List Message
list_entry k (inbox_entry e at read) rest =
    record { id = shown_id e.id (drop 6 k); envelope = e; received_at = at; read = read } ∷ rest
list_entry k (sent_entry e at) rest = rest

unfoldable pub list_inbox : List (Text × Entry) → List Message
list_inbox [] = []
list_inbox ((k, v) ∷ es) =
    let rest = list_inbox es in if starts_with k (codes "inbox:") then list_entry k v rest else rest

abbrev pub newest_first : Message → Message → Bool
newest_first a b = leb b.envelope.timestamp a.envelope.timestamp

abbrev pub as_read : Entry → Entry
as_read (inbox_entry e at read) = inbox_entry e at true
as_read (sent_entry e at) = sent_entry e at

module _ (c : Encodings) (f : Format) where
  -- What the relays are asked to store.
  abbrev pub store_request : Envelope → Text → ℕ → StoreRequest
  store_request e key now = record {
    action = codes "store";
    json = some (record {
      id = none;
      recipient = key;
      message_data = c.to_base64 (c.utf8 (f.envelope_text e));
      timestamp = some now;
      expires = none;
      storage_proofs = none;
      replication_count = none;
    });
  }

  abbrev pub request_under : Option Text → Envelope → ℕ → Option StoreRequest
  request_under none e now = none
  request_under (some key) e now = some (store_request e key now)

  -- The request that each connected relay is sent, if there is one.
  unfoldable pub store_on_relays : Envelope → ℕ → Option StoreRequest
  unfolding storage_key
  store_on_relays e now = request_under (storage_key e) e now

module _ (c : Encodings) (f : Format) (db : Db Entry) where
  unfoldable pub store_message : Text → Envelope → ℕ → db.Store → db.Store
  store_message id e now s = db.put (inbox_key id) (inbox_entry e now false) s

  -- It is stored, and the handlers are called with it.
  unfoldable pub receive : Text → Envelope → Envelope → ℕ → Node db.Store → Node db.Store
  unfolding store_message
  receive id kept e now n = record {
    messages = store_message id kept now n.messages;
    handled = n.handled ++ e ∷ [];
  }

  abbrev pub take_envelope : Option Envelope → Text → Primitives → ℕ → Node db.Store → Node db.Store
  take_envelope none address p now n = n
  take_envelope (some e) address p now n =
      if is_for_us p c address e then receive (get_message_id c f e) e e now n else n

  unfoldable pub handle_incoming_message :
      Primitives → Text → Bytes → ℕ → Node db.Store → Node db.Store
  unfolding receive is_for_us get_message_id
  handle_incoming_message p address bytes now n =
      take_envelope (f.envelope_of (c.from_utf8 bytes)) address p now n

  -- The ids that were seen before in the same round are left out.
  abbrev pub store_new : ℕ → Fetched → List Text × Node db.Store → List Text × Node db.Store
  store_new now m (seen, n) =
      if is_seen (id_of c f m) seen
      then (seen, n)
      else (seen ++ id_of c f m ∷ [], receive (id_of c f m) m.envelope m.envelope now n)

  unfoldable pub store_unseen :
      ℕ → List Fetched → List Text × Node db.Store → List Text × Node db.Store
  unfolding receive is_seen
  store_unseen now [] t = t
  store_unseen now (m ∷ ms) t = store_unseen now ms (store_new now m t)

  unfoldable pub fetch_from_peers :
      ℕ → List Answers → List Text × Node db.Store → List Text × Node db.Store
  unfolding store_unseen fetch_messages_from_peer
  fetch_from_peers now [] t = t
  fetch_from_peers now (a ∷ rest) t =
      fetch_from_peers now rest (store_unseen now (fetch_messages_from_peer c f a) t)

  -- The answers are those of the peers that are connected, in their order.
  unfoldable pub fetch_from_all_peers : ℕ → List Answers → Node db.Store → Node db.Store
  unfolding fetch_from_peers
  fetch_from_all_peers now answers n = (fetch_from_peers now answers ([], n)).1

  abbrev pub receive_data : Option Envelope → Option ℕ → ℕ → Node db.Store → Node db.Store
  receive_data none count now n = n
  receive_data (some e) count now n =
      receive (get_message_id c f e) (record e { dht_replication_count = count }) e now n

  unfoldable pub receive_records : ℕ → List Json → Node db.Store → Node db.Store
  unfolding receive read_data
  receive_records now [] n = n
  receive_records now (r ∷ rs) n =
      receive_records now rs (receive_data (read_data c f r.message_data) r.replication_count now n)

  abbrev pub receive_plain : Option Envelope → ℕ → Node db.Store → Node db.Store
  receive_plain none now n = n
  receive_plain (some e) now n = receive (get_message_id c f e) e e now n

  unfoldable pub receive_legacy : ℕ → List (Text × ℕ) → Node db.Store → Node db.Store
  unfolding receive read_data
  receive_legacy now [] n = n
  receive_legacy now (m ∷ ms) n = receive_legacy now ms (receive_plain (read_data c f m.0) now n)

  abbrev pub fetch_from_peer_legacy : Option Response → ℕ → Node db.Store → Node db.Store
  fetch_from_peer_legacy (some (delivered ms)) now n = receive_legacy now ms n
  fetch_from_peer_legacy _ now n = n

  -- A response that is an error is an exception, after which the legacy protocol is tried.
  abbrev pub fetch_from_peer : Answers → ℕ → Node db.Store → Node db.Store
  fetch_from_peer a now n = elim a.dht [
    | none ↦ fetch_from_peer_legacy a.legacy now n
    | some response ↦ elim response as (λ x. Node db.Store) [
      | found rs ↦ receive_records now rs n
      | other ↦ fetch_from_peer_legacy a.legacy now n
    ]
  ]

  -- The relays that were reached, in their order.
  unfoldable pub connect_to_relays_and_fetch : ℕ → List Answers → Node db.Store → Node db.Store
  unfolding receive_records receive_legacy
  connect_to_relays_and_fetch now [] n = n
  connect_to_relays_and_fetch now (a ∷ rest) n =
      connect_to_relays_and_fetch now rest (fetch_from_peer a now n)

  -- What is published on the topic, what the relays are asked, and the id.
  unfoldable pub send_message :
      Text → Envelope → ℕ → Node db.Store → Node db.Store × Bytes × Option StoreRequest × Text
  unfolding store_message get_message_id store_on_relays
  send_message address e now n =
      let id = get_message_id c f e in
      let sent = db.put (sent_key id) (sent_entry e now) n.messages in
      (
        record n {
          messages =
              if holds (text_discrete (text_or e.to []) address)
              then store_message id e now sent
              else sent;
        },
        c.utf8 (f.envelope_text e),
        store_on_relays c f e now,
        id,
      )

  unfoldable pub get_inbox : ℕ → List Answers → Node db.Store → Node db.Store × List Message
  unfolding fetch_from_all_peers list_inbox
  get_inbox now answers n =
      let n' = fetch_from_all_peers now answers n in
      (n', sort newest_first (list_inbox (db.iterator n'.messages)))

  unfoldable pub get_message : Text → Node db.Store → Option Entry
  get_message id n = db.get (inbox_key id) n.messages

  abbrev pub put_read : Text → Option Entry → db.Store → db.Store
  put_read id none s = s
  put_read id (some v) s = db.put (inbox_key id) (as_read v) s

  unfoldable pub mark_as_read : Text → Node db.Store → Node db.Store
  unfolding get_message
  mark_as_read id n = record n { messages = put_read id (get_message id n) n.messages }

  unfoldable pub delete_message : Text → Node db.Store → Node db.Store
  delete_message id n = record n { messages = db.del (inbox_key id) n.messages }
