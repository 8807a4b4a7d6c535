-- ===== src/Network/MailNode/Delivery/Relayed.antt =====
-- src/network/node.js with relay-node.js: what a relay keeps of an envelope, and what it answers.
use chainmail_protocol.Base.{
  ℕ, ◌≤◌, ◌+◌, ◌≡◌, ◌≢◌, refl, ap, sym, subst, ◌∙◌, ◌⊎◌, inl, inr, true, List, [], ◌++◌, Option,
  none, some, Text, text_discrete, arith,
}
use chainmail_protocol.Base.Database.{
  Db, DbLaws, get-put_self, get-put_ne, none-ne-some, some-injective,
}
use chainmail_protocol.Base.Dict.{In, In-append_cases, In-append_left, In-append_right}
use chainmail_protocol.Crypto.{Encodings, EncodingLaws, Primitives}
use chainmail_protocol.Storage.DhtStorage.{
  Json, MessageRecord, message_key, message_record, message_ttl, to_json, get_messages,
  store_record, prove,
}
use chainmail_protocol.Storage.DhtStorage.History.{text_or_lem}
use chainmail_protocol.Storage.DhtStorage.Lookup.{In-get_messages}
use chainmail_protocol.Network.RelayNode.{
  Relay, Moment, names_key, FetchRequest, fetch_records, messages_of, text_if_any,
  handle_store_request, store_replica,
}
use chainmail_protocol.Network.RelayNode.Fetching.{HasId, fetch_records-IsUnique}
use chainmail_protocol.Network.MailNode.{
  Envelope, Format, generate_routing_token, is_for_us, storage_key, fetch_request, read_data,
}
use chainmail_protocol.Network.MailNode.Operations.{store_request}
use chainmail_protocol.Network.MailNode.Delivery.Keys.{
  or_else_ge, message_key-starts, text_or-ne, text_or_cases, storage_key-lem,
}

-- No entry has this id, and no record without an id is given it.
abbrev pub IsNew : (db : Db Json) → Text → Text → db.Store → Type 0
IsNew db id fresh s = (fresh ≢ id) × ((k : Text) (v : Json) → db.get k s ≡ some v → v.id ≢ some id)

-- Everything in the answer of the relay can be read.
abbrev pub IsReadable : Encodings → Format → List MessageRecord → Type 0
IsReadable c f rs =
    (q : MessageRecord) → In q rs → (e : Envelope) × (read_data c f q.message_data ≡ some e)

module _ (p : Primitives) (c : Encodings) (laws : EncodingLaws c) (f : Format) (db : Db Json)
    (db_laws : DbLaws db) where
  -- What the relay keeps of an envelope that it is sent.
  abbrev pub record_of : Envelope → Text → ℕ → Moment → MessageRecord
  record_of e key now t = message_record t.first_id t.now (record {
    id = none;
    recipient = key;
    message_data = c.to_base64 (c.utf8 (f.envelope_text e));
    timestamp = some now;
    expires = none;
    storage_proofs = none;
    replication_count = none;
  })

  pub messages-handle_store_request :
      (e : Envelope) (key : Text) (now : ℕ) (t : Moment) (r : Relay db.Store)
      → (handle_store_request c db (some (store_request c f e key now)) t r).0.messages
        ≡ db.put (message_key key t.first_id) (to_json (record_of e key now t)) r.messages
  unfolding handle_store_request store_replica store_record prove message_record text_discrete
  messages-handle_store_request e key now t r = refl

  -- A record of the answer is read from an entry of the database.
  pub IsRead : Text → ℕ → MessageRecord → db.Store → Type 0
  IsRead fresh now q s =
      (k : Text) × (v : Json) × (db.get k s ≡ some v) × (q ≡ message_record fresh now v)

  messages_of-IsRead :
      (fresh : Text) (now : ℕ) (key : Option Text) (s : db.Store) (q : MessageRecord)
      → In q (messages_of db fresh now key s)
      → IsRead fresh now q s
  unfolding IsRead
  messages_of-IsRead fresh now none s q i = absurd i
  messages_of-IsRead fresh now (some key) s q i =
      let (k, v, g, (starts, e, alive)) = (In-get_messages db db_laws fresh now key s q).1.0 i in
      (k, v, g, e)

  pub fetch_records-IsRead :
      (fresh : Text) (now : ℕ) (request : FetchRequest) (s : db.Store) (q : MessageRecord)
      → In q (fetch_records db fresh now request s)
      → IsRead fresh now q s
  fetch_records-IsRead fresh now request s q i =
      elim (In-append_cases q (messages_of db fresh now (text_if_any request.recipient) s)
        (messages_of db fresh now (text_if_any request.routing_token) s)
        ((fetch_records-IsUnique db fresh now request s q).1 i)) [
          | inl j ↦ messages_of-IsRead fresh now (text_if_any request.recipient) s q j
          | inr j ↦ messages_of-IsRead fresh now (text_if_any request.routing_token) s q j
        ]

  record_of-lem :
      (e : Envelope) (key fresh : Text) (now now' : ℕ) (t : Moment)
      → t.first_id ≢ []
      → now' ≤ t.now + message_ttl
      → let r = message_record fresh now' (to_json (record_of e key now t)) in
        (r.id ≡ t.first_id) × (now' ≤ r.expires)
  unfolding message_record to_json
  record_of-lem e key fresh now now' t i h = (
    text_or_lem t.first_id fresh i,
    or_else_ge (t.now + message_ttl) (now' + message_ttl) now' h (omega arith),
  )

  -- It is in the answer that its recipient is given.
  pub fetch_records-HasId :
      (address key fresh : Text) (e : Envelope) (now now' : ℕ) (t : Moment) (s : db.Store)
      → is_for_us p c address e ≡ true
      → storage_key e ≡ some key
      → t.first_id ≢ []
      → now' ≤ t.now + message_ttl
      → HasId t.first_id (
          fetch_records db fresh now'
            (fetch_request p c address)
            (db.put (message_key key t.first_id) (to_json (record_of e key now t)) s))
  unfolding fetch_request
  fetch_records-HasId address key fresh e now now' t s us k i h =
      let s' : db.Store = db.put (message_key key t.first_id) (to_json (record_of e key now t)) s in
      let r : MessageRecord = message_record fresh now' (to_json (record_of e key now t)) in
      let (id, alive) = record_of-lem e key fresh now now' t i h in
      let there : In r (get_messages db fresh now' key s') =
        (In-get_messages db db_laws fresh now' key s' r).1.1 (
          message_key key t.first_id,
          to_json (record_of e key now t),
          get-put_self db_laws (message_key key t.first_id) (to_json (record_of e key now t)) s,
          (message_key-starts key t.first_id, refl, alive),
        ) in
      let either : In r (
          messages_of db fresh now' (text_if_any (some address)) s'
          ++ messages_of db fresh now' (text_if_any (some (generate_routing_token p c address)))
              s') =
        elim (storage_key-lem p c address key e us k) [
          | inl x ↦
              In-append_left r (messages_of db fresh now' (text_if_any (some address)) s')
                (messages_of db fresh now' (text_if_any (some (generate_routing_token p c address)))
                  s')
                (subst (λ o. In r (messages_of db fresh now' o s')) (sym x) there)
          | inr x ↦
              In-append_right r (messages_of db fresh now' (text_if_any (some address)) s')
                (messages_of db fresh now' (text_if_any (some (generate_routing_token p c address)))
                  s')
                (subst (λ o. In r (messages_of db fresh now' o s')) (sym x) there)
        ] in
      subst (λ x. HasId x (fetch_records db fresh now' (fetch_request p c address) s')) id
        ((fetch_records-IsUnique db fresh now' (fetch_request p c address) s' r).2 either)

  -- What is read under the id of the message is the message.
  pub IsRead-message_data :
      (key fresh : Text) (e : Envelope) (now now' : ℕ) (t : Moment) (s : db.Store)
      (q : MessageRecord)
      → IsNew db t.first_id fresh s
      → q.id ≡ t.first_id
      → IsRead fresh now' q
          (db.put (message_key key t.first_id) (to_json (record_of e key now t)) s)
      → q.message_data ≡ (record_of e key now t).message_data
  unfolding IsRead message_record to_json
  IsRead-message_data key fresh e now now' t s q (d, new) id (k, v, g, r) =
      elim (text_discrete k (message_key key t.first_id)) [
        | yes x ↦
            let same : v ≡ to_json (record_of e key now t) = some-injective (
              sym g
              ∙ ap
                  (λ j.
                    db.get j
                      (db.put (message_key key t.first_id) (to_json (record_of e key now t)) s))
                  x
              ∙ get-put_self db_laws (message_key key t.first_id) (to_json (record_of e key now t))
                  s) in
            ap (λ y. y.message_data) r ∙ ap (λ y. y.message_data) same
        | no x ↦ elim (text_or_cases v.id fresh t.first_id (ap (λ y. y.id) (sym r) ∙ id)) [
          | inl y ↦ absurd (
              new k v
                (sym (
                    get-put_ne db_laws k (message_key key t.first_id)
                      (to_json (record_of e key now t)) s x)
                  ∙ g)
                y)
          | inr y ↦ absurd (d y)
        ]
      ]

  pub names_key-some :
      (a b : Option Text) (k : Text) → (a ≡ some k) ⊎ (b ≡ some k) → names_key db a b ≡ true
  names_key-some none none k (inl h) = absurd (none-ne-some k h)
  names_key-some none none k (inr h) = absurd (none-ne-some k h)
  names_key-some none (some b) k h = refl
  names_key-some (some a) none k h = refl
  names_key-some (some a) (some b) k h = refl

  pub read_data-lem :
      (e : Envelope) (key : Text) (now : ℕ) (t : Moment)
      → f.envelope_of (f.envelope_text e) ≡ some e
      → read_data c f (record_of e key now t).message_data ≡ some e
  unfolding read_data message_record
  read_data-lem e key now t h =
      ap f.envelope_of (
        ap c.from_utf8 (laws.from_base64-to_base64 (c.utf8 (f.envelope_text e)))
        ∙ laws.from_utf8-utf8 (f.envelope_text e))
      ∙ h

  pub IsRead-id :
      (fresh : Text) (now : ℕ) (q : MessageRecord) (s : db.Store)
      → fresh ≢ []
      → IsRead fresh now q s
      → q.id ≢ []
  unfolding IsRead message_record
  IsRead-id fresh now q s h (k, v, g, r) e = text_or-ne v.id fresh h (sym (ap (λ y. y.id) r) ∙ e)
