-- ===== src/Network/MailNode/Delivery.antt =====
-- src/network/node.js with relay-node.js: the way of a message from its sender over a relay into the
-- mailbox of its recipient.
pub mod Keys
pub mod Records
pub mod Relayed
pub mod Answer
use chainmail_protocol.Base.{
  ℕ, zero, suc, or_else, starts_with, starts_with-append, ◌≤◌, ◌+◌, ◌≡◌, ◌≢◌, refl, ap, sym, subst,
  ◌∙◌, ◌⊎◌, inl, inr, Bool, true, false, List, [], ◌∷◌, ◌++◌, Option, none, some, if◌then◌else◌,
  Text, codes, text_discrete, arith, All, All-append, map, Bool-cases, Option-cases, holds, is_some,
  false-ne-true,
}
use chainmail_protocol.Base.Database.{
  Db, DbLaws, get-put_self, get-put_ne, none-ne-some, some-injective,
}
use chainmail_protocol.Base.Dict.{In, In-append_cases, In-append_left, In-append_right}
use chainmail_protocol.Crypto.{Encodings, EncodingLaws, Primitives}
use chainmail_protocol.Storage.DhtStorage.{
  Json, MessageRecord, message_key, message_record, message_ttl, to_json, get_messages, text_or,
  store_record, prove,
}
use chainmail_protocol.Storage.DhtStorage.History.{text_or_lem}
use chainmail_protocol.Storage.DhtStorage.Lookup.{In-get_messages}
use chainmail_protocol.Network.RelayNode.{
  Relay, Moment, Response, StoreRequest, found, invalid_request, names_key, FetchRequest,
  fetch_records, messages_of, text_if_any, handle_store_request, handle_dht_fetch_request,
  store_replica,
}
use chainmail_protocol.Network.RelayNode.Fetching.{HasId, fetch_records-IsUnique}
use chainmail_protocol.Network.MailNode.{
  Envelope, Entry, inbox_entry, Format, Answers, Node, Fetched, inbox_key, generate_routing_token,
  is_sealed, is_for_us, storage_key, fetch_request, read_data, push, collect_dht, or_legacy,
  fetch_messages_from_peer, id_of, get_message_id,
}
use chainmail_protocol.Network.MailNode.Operations.{
  store_request, request_under, store_on_relays, fetch_from_all_peers,
}
use chainmail_protocol.Network.MailNode.Mailbox.{all_fetched, Only, fetch_from_all_peers-Only}
use chainmail_protocol.Network.MailNode.Delivery.Relayed.{IsNew, IsReadable}
use chainmail_protocol.Network.MailNode.Delivery.Answer.{
  records_at, handle_dht_fetch_request-found, In-fetch_messages_from_peer,
}

module _ (p : Primitives) (c : Encodings) (laws : EncodingLaws c) (f : Format) (db : Db Json)
    (db_laws : DbLaws db) (mail : Db Entry) (mail_laws : DbLaws mail) where
  -- What a sender asks a relay to store reaches its recipient, who asks that relay within seven days,
  -- whether it is addressed by a routing token or in the open: afterwards the envelope is in the
  -- mailbox under its id on the relay, unread. The id, and the one that a record without an id is
  -- given, are not empty; the first is new to the relay and not the second; all that the relay has for
  -- the recipient is JSON; no other peer has another envelope under the id; and the envelope is read
  -- from its JSON.
  pub store_on_relays-HasUnread :
      (address fresh : Text) (e : Envelope) (q : StoreRequest) (now now' later : ℕ) (t : Moment)
      (r : Relay db.Store) (legacy : Option Response) (others : List Answers) (n : Node mail.Store)
      → is_for_us p c address e ≡ true
      → store_on_relays c f e now ≡ some q
      → t.first_id ≢ []
      → fresh ≢ []
      → now' ≤ t.now + message_ttl
      → IsNew db t.first_id fresh r.messages
      → f.envelope_of (f.envelope_text e) ≡ some e
      → IsReadable c f (
          fetch_records db fresh now'
            (fetch_request p c address)
            (handle_store_request c db (some q) t r).0.messages)
      → All (Only c f t.first_id e) (all_fetched c f others)
      → let stored = (handle_store_request c db (some q) t r).0.messages in
        let answer =
          handle_dht_fetch_request db (some (fetch_request p c address)) fresh now' stored in
        mail.get
          (inbox_key t.first_id)
          (fetch_from_all_peers c f mail later
            (record { dht = some answer; legacy = legacy } ∷ others)
            n).messages
        ≡ some (inbox_entry e later false)
  unfolding store_on_relays
  store_on_relays-HasUnread address fresh e q now now' later t r legacy others n us sends i ne h new
        law readable only =
      elim (Option-cases (storage_key e)) [
        | inl x ↦ absurd (none-ne-some q (ap (λ o. request_under c f o e now) (sym x) ∙ sends))
        | inr (key, x) ↦
            subst (λ o. Arrives o)
              (some-injective (ap (λ o. request_under c f o e now) (sym x) ∙ sends)) (arrives key x)
              readable
      ]
    where
      Arrives : StoreRequest → Type 0
      Arrives o =
          IsReadable c f (
            fetch_records db fresh now' (fetch_request p c address)
              (handle_store_request c db (some o) t r).0.messages)
          → mail.get (inbox_key t.first_id)
              (fetch_from_all_peers c f mail later
                (record {
                  dht = some (
                      handle_dht_fetch_request db (some (fetch_request p c address)) fresh now'
                        (handle_store_request c db (some o) t r).0.messages);
                  legacy = legacy;
                }
                  ∷ others)
                n).messages
            ≡ some (inbox_entry e later false)

      arrives : (key : Text) → storage_key e ≡ some key → Arrives (store_request c f e key now)
      arrives key x readable =
          let answer =
            found
              (map to_json (records_at p c laws f db db_laws address key fresh e now now' t r)) in
          let a : Answers = record { dht = some answer; legacy = legacy } in
          let (all, m, j, id) =
            In-fetch_messages_from_peer p c laws f db db_laws address key fresh e now now' t r
              legacy us x i ne h new law readable in
          subst
            (λ o.
              mail.get (inbox_key t.first_id)
                (fetch_from_all_peers c f mail later
                  (record { dht = some o; legacy = legacy } ∷ others) n).messages
              ≡ some (inbox_entry e later false))
            (sym (
              handle_dht_fetch_request-found p c laws f db db_laws address key fresh e now now' t r
                us x))
            (fetch_from_all_peers-Only c f mail mail_laws later (a ∷ others) n t.first_id e m
              (All-append (Only c f t.first_id e) (fetch_messages_from_peer c f a)
                (all_fetched c f others) all only)
              (In-append_left m (fetch_messages_from_peer c f a) (all_fetched c f others) j) id)
