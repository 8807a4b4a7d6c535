-- ===== src/Network/MailNode.antt =====
-- src/network/node.js: the mailbox of a client, what it takes from the topic, and what it asks of the
-- relays and stores there. Streams and the publication are libp2p's: an answer of a peer is the parsed
-- response, `none` where there is none. JSON is the parameter `Format`; an envelope is an object with a
-- timestamp. A call runs without another one in between.
use chainmail_protocol.Base.{
  ℕ, ◌≡◌, Bool, true, false, List, [], ◌∷◌, ◌++◌, Option, none, some, if◌then◌else◌, leb, holds,
  Text, Bytes, codes, text_discrete, starts_with, take, drop, map, is_some,
}
use chainmail_protocol.Base.Database.{Db}
use chainmail_protocol.Base.Sort.{sort}
use chainmail_protocol.Crypto.{Primitives, Encodings}
use chainmail_protocol.Network.RelayNode.{
  Response, found, delivered, StoreRequest, FetchRequest, is_seen, text_if_any,
}
use chainmail_protocol.Storage.DhtStorage.{Json, text_or}
pub mod Operations
pub mod Mailbox
pub mod Listing
pub mod Delivery

-- What a node reads of an envelope; `payload` and `encrypted` are the JSON of these fields, and
-- `rest` that of the others. A field that is missing is `none`, or empty.
pub record Envelope : Type 0 where
  pub id : Option Text
  pub envelope_type : Text
  pub routing_token : Option Text
  pub to : Option Text
  pub payload : Option Text
  pub encrypted : Option Text
  pub timestamp : ℕ
  pub dht_replication_count : Option ℕ
  pub rest : Text

-- What the database has under `inbox:` and under `sent:`.
pub data Entry : Type 0 where
  inbox_entry : Envelope → ℕ → Bool → Entry
  sent_entry : Envelope → ℕ → Entry

pub record Message : Type 0 where
  pub id : Text
  pub envelope : Envelope
  pub received_at : ℕ
  pub read : Bool

-- JSON.stringify of an envelope and of what its id is made of, and JSON.parse of an envelope.
pub record Format : Type 0 where
  pub envelope_text : Envelope → Text
  pub envelope_of : Text → Option Envelope
  pub id_text : Option Text → Option Bytes → ℕ → Text

-- The responses of a peer under the two protocols; `none` is a stream that failed, or no JSON.
pub record Answers : Type 0 where
  pub dht : Option Response
  pub legacy : Option Response

-- The database, and the envelopes that the handlers were called with, in their order.
pub record Node (Store : Type 0) : Type 0 where
  pub messages : Store
  pub handled : List Envelope

-- A message of `fetchMessagesFromPeer`; those of the legacy protocol have no id.
pub record Fetched : Type 0 where
  pub id : Option Text
  pub envelope : Envelope

abbrev pub inbox_key : Text → Text
inbox_key id = codes "inbox:" ++ id

abbrev pub sent_key : Text → Text
sent_key id = codes "sent:" ++ id

unfoldable pub generate_routing_token : Primitives → Encodings → Text → Text
generate_routing_token p c address =
    c.hex (p.hkdf (c.utf8 address) none (c.utf8 (codes "dmail-routing-v2")) 16)

unfoldable pub is_sealed : Envelope → Bool
is_sealed e =
    if holds (text_discrete e.envelope_type (codes "sealed"))
    then is_some (text_if_any e.routing_token)
    else false

-- `this.identity.address` is `address`.
unfoldable pub is_for_us : Primitives → Encodings → Text → Envelope → Bool
unfolding is_sealed generate_routing_token
is_for_us p c address e =
    if is_sealed e
    then holds (text_discrete (text_or e.routing_token []) (generate_routing_token p c address))
    else holds (text_discrete (text_or e.to []) address)

-- `envelope.type === 'sealed' && envelope.routingToken ? envelope.routingToken : envelope.to`.
unfoldable pub storage_key : Envelope → Option Text
unfolding is_sealed
storage_key e = if is_sealed e then e.routing_token else text_if_any e.to

unfoldable pub fetch_request : Primitives → Encodings → Text → FetchRequest
unfolding generate_routing_token
fetch_request p c address = record {
  action = codes "fetch";
  recipient = some address;
  routing_token = some (generate_routing_token p c address);
}

module _ (c : Encodings) (f : Format) where
  abbrev pub hash_of_payload : Option Text → Option Text → Option Bytes
  hash_of_payload (some payload) encrypted = some (c.sha256 (c.utf8 payload))
  hash_of_payload none (some encrypted) = some (c.sha256 (c.utf8 encrypted))
  hash_of_payload none none = none

  unfoldable pub get_message_id : Envelope → Text
  get_message_id e = take 32 (
      c.hex (
        c.sha256
          (c.utf8 (f.id_text e.routing_token (hash_of_payload e.payload e.encrypted) e.timestamp))))

  -- `Buffer.from(record.data, 'base64').toString()`, parsed.
  unfoldable pub read_data : Text → Option Envelope
  read_data text = f.envelope_of (c.from_utf8 (c.from_base64 text))

  -- The messages up to the first one that does not parse, and whether all did.
  abbrev pub push : Option Text → Option Envelope → List Fetched × Bool → List Fetched × Bool
  push id none rest = ([], false)
  push id (some e) rest = (record { id = id; envelope = e } ∷ rest.0, rest.1)

  unfoldable pub collect_dht : List Json → List Fetched × Bool
  unfolding read_data
  collect_dht [] = ([], true)
  collect_dht (r ∷ rs) = push r.id (read_data r.message_data) (collect_dht rs)

  unfoldable pub collect_legacy : List (Text × ℕ) → List Fetched
  unfolding read_data
  collect_legacy [] = []
  collect_legacy (m ∷ ms) = (push none (read_data m.0) (collect_legacy ms, true)).0

  abbrev pub legacy_messages : Option Response → List Fetched
  legacy_messages (some (delivered ms)) = collect_legacy ms
  legacy_messages _ = []

  abbrev pub or_legacy : Option Response → List Fetched × Bool → List Fetched
  or_legacy legacy (ms, true) = ms
  or_legacy legacy (ms, false) = ms ++ legacy_messages legacy

  unfoldable pub fetch_messages_from_peer : Answers → List Fetched
  unfolding collect_dht collect_legacy
  fetch_messages_from_peer a = elim a.dht [
    | none ↦ legacy_messages a.legacy
    | some response ↦ elim response as (λ x. List Fetched) [
      | found rs ↦ or_legacy a.legacy (collect_dht rs)
      | other ↦ []
    ]
  ]

  abbrev pub id_of : Fetched → Text
  id_of m = text_or m.id (get_message_id m.envelope)
