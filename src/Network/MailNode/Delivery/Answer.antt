-- ===== src/Network/MailNode/Delivery/Answer.antt =====
-- src/network/node.js with relay-node.js: what a recipient takes from the answer of the relay.
use chainmail_protocol.Base.{
  ℕ, ◌≤◌, ◌+◌, ◌≡◌, ◌≢◌, ap, sym, subst, ◌∙◌, Bool, true, List, [], Option, some, if◌then◌else◌,
  Text, text_discrete, All, map,
}
use chainmail_protocol.Base.Database.{some-injective, Db, DbLaws}
use chainmail_protocol.Base.Dict.{In}
use chainmail_protocol.Crypto.{Encodings, EncodingLaws, Primitives}
use chainmail_protocol.Storage.DhtStorage.{Json, MessageRecord, message_key, message_ttl, to_json}
use chainmail_protocol.Storage.DhtStorage.History.{text_or_lem}
use chainmail_protocol.Network.RelayNode.{
  Relay, Moment, Response, found, invalid_request, fetch_records, text_if_any, handle_store_request,
  handle_dht_fetch_request,
}
use chainmail_protocol.Network.RelayNode.Fetching.{HasId}
use chainmail_protocol.Network.MailNode.{
  Envelope, Format, Fetched, generate_routing_token, is_for_us, storage_key, fetch_request,
  read_data, collect_dht, or_legacy, fetch_messages_from_peer, id_of, get_message_id,
}
use chainmail_protocol.Network.MailNode.Operations.{store_request}
use chainmail_protocol.Network.MailNode.Mailbox.{Only}
use chainmail_protocol.Network.MailNode.Delivery.Keys.{storage_key-lem}
use chainmail_protocol.Network.MailNode.Delivery.Records.{Reads, collect_dht-Took}
use chainmail_protocol.Network.MailNode.Delivery.Relayed.{
  IsNew, IsReadable, messages-handle_store_request, IsRead, fetch_records-IsRead,
  fetch_records-HasId, IsRead-message_data, names_key-some, read_data-lem, IsRead-id, record_of,
}

module _ (p : Primitives) (c : Encodings) (laws : EncodingLaws c) (f : Format) (db : Db Json)
    (db_laws : DbLaws db) where
  module _ (address key fresh : Text) (e : Envelope) (now now' : ℕ) (t : Moment)
      (r : Relay db.Store) where
    abbrev pub stored_at : Relay db.Store
    stored_at = (handle_store_request c db (some (store_request c f e key now)) t r).0

    abbrev pub records_at : List MessageRecord
    records_at = fetch_records db fresh now' (fetch_request p c address) stored_at.messages

    records_at-Reads :
        IsNew db t.first_id fresh r.messages
        → fresh ≢ []
        → f.envelope_of (f.envelope_text e) ≡ some e
        → IsReadable c f records_at
        → (q : MessageRecord) → In q records_at
        → Reads c f (Only c f t.first_id e) q
    records_at-Reads new ne law readable q i =
        let (d, read) = readable q i in
        let source : IsRead p c laws f db db_laws fresh now' q (
            db.put (message_key key t.first_id)
              (to_json (record_of p c laws f db db_laws e key now t)) r.messages) =
          subst (IsRead p c laws f db db_laws fresh now' q)
            (messages-handle_store_request p c laws f db db_laws e key now t r)
            (fetch_records-IsRead p c laws f db db_laws fresh now' (fetch_request p c address)
              stored_at.messages q i) in
        (
          d,
          read,
          (λ same. some-injective (
              sym read
              ∙ ap (read_data c f) (
                  IsRead-message_data p c laws f db db_laws key fresh e now now' t r.messages q new
                    (sym (
                        text_or_lem q.id (get_message_id c f d) (
                          IsRead-id p c laws f db db_laws fresh now' q stored_at.messages ne (
                            fetch_records-IsRead p c laws f db db_laws fresh now'
                              (fetch_request p c address) stored_at.messages q i)))
                      ∙ same)
                    source)
              ∙ read_data-lem p c laws f db db_laws e key now t law)),
        )

    records_at-HasId :
        is_for_us p c address e ≡ true
        → storage_key e ≡ some key
        → t.first_id ≢ []
        → now' ≤ t.now + message_ttl
        → HasId t.first_id records_at
    records_at-HasId us k i h =
        subst (λ s. HasId t.first_id (fetch_records db fresh now' (fetch_request p c address) s))
          (sym (messages-handle_store_request p c laws f db db_laws e key now t r))
          (fetch_records-HasId p c laws f db db_laws address key fresh e now now' t r.messages us k
            i h)

    pub handle_dht_fetch_request-found :
        is_for_us p c address e ≡ true
        → storage_key e ≡ some key
        → handle_dht_fetch_request db
            (some (fetch_request p c address))
            fresh
            now'
            stored_at.messages
          ≡ found (map to_json records_at)
    unfolding handle_dht_fetch_request fetch_request text_discrete
    handle_dht_fetch_request-found us k =
        ap (λ b. if b then found (map to_json records_at) else invalid_request)
          (names_key-some p c laws f db db_laws (text_if_any (some address))
            (text_if_any (some (generate_routing_token p c address))) key
            (storage_key-lem p c address key e us k))

    pub In-fetch_messages_from_peer :
        (legacy : Option Response)
        → is_for_us p c address e ≡ true
        → storage_key e ≡ some key
        → t.first_id ≢ []
        → fresh ≢ []
        → now' ≤ t.now + message_ttl
        → IsNew db t.first_id fresh r.messages
        → f.envelope_of (f.envelope_text e) ≡ some e
        → IsReadable c f records_at
        → let ms : List Fetched =
            fetch_messages_from_peer c f
              (record { dht = some (found (map to_json records_at)); legacy = legacy }) in
          All (Only c f t.first_id e) ms × (m : Fetched) × In m ms × (id_of c f m ≡ t.first_id)
    unfolding fetch_messages_from_peer
    In-fetch_messages_from_peer legacy us k i ne h new law readable =
        let (full, all, there) =
          collect_dht-Took c f (Only c f t.first_id e) records_at
            (records_at-Reads new ne law readable) in
        let (q, j, id) = records_at-HasId us k i h in
        let (d, read, l) = there q j in
        subst
          (λ b.
            All (Only c f t.first_id e) (or_legacy c f legacy (got.0, b))
            × (m : Fetched) × In m (or_legacy c f legacy (got.0, b))
            × (id_of c f m ≡ t.first_id))
          (sym full)
          (
            all,
            record { id = some q.id; envelope = d },
            l,
            text_or_lem q.id (get_message_id c f d) (λ x. i (sym id ∙ x)) ∙ id,
          )
      where
        got : List Fetched × Bool
        got = collect_dht c f (map to_json records_at)
