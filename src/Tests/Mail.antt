-- ===== src/Tests/Mail.antt =====
-- src/network/node.js at concrete inputs, over databases that are lists of entries.
use chainmail_protocol.Base.{
  starts_with, ℕ, ◌≡◌, ◌↔◌, refl, ap, inl, inr, true, false, List, [], ◌∷◌, Option, none, some,
  Text, codes, text_discrete, arith, All,
}
use chainmail_protocol.Base.Database.{Db, none-ne-some}
use chainmail_protocol.Base.Dict.{In, get, set}
use chainmail_protocol.Base.Sort.{IsOrdered, sort, insert}
use chainmail_protocol.Network.RelayNode.{
  Moment, StoreRequest, found, failed, handle_store_request, handle_dht_fetch_request,
  fetch_records, store_replica, add_unseen, is_seen,
}
use chainmail_protocol.Network.MailNode.{
  Envelope, Entry, inbox_entry, Message, Format, Answers, Node, Fetched, inbox_key, is_for_us,
  is_sealed, generate_routing_token, storage_key, fetch_request, fetch_messages_from_peer,
  read_data, collect_dht, id_of,
}
use chainmail_protocol.Network.MailNode.Operations.{
  store_request, store_on_relays, fetch_from_all_peers, get_inbox, shown_id,
}
use chainmail_protocol.Network.MailNode.Mailbox.{all_fetched, Only}
use chainmail_protocol.Network.MailNode.Listing.{
  IsNewer, handle_all, In-get_inbox, get_inbox-unread,
}
use chainmail_protocol.Network.MailNode.Delivery.{store_on_relays-HasUnread}
use chainmail_protocol.Network.MailNode.Delivery.Records.{fetch_messages_from_peer-stops}
use chainmail_protocol.Network.MailNode.Delivery.Relayed.{IsNew, IsReadable}
use chainmail_protocol.Storage.DhtStorage.{
  Json, message_key, get_messages, collect, message_record, is_expired, store_record, prove,
}
use chainmail_protocol.Tests.Entries.{entry_list, entry_list_laws}
use chainmail_protocol.Tests.Toy.{toy, plain, plain_laws}
use chainmail_protocol.Tests.Relay.{relay}

abbrev db : Db Json
db = entry_list

abbrev mail : Db Entry
mail = entry_list

abbrev pub sealed_for : Text → ℕ → Envelope
sealed_for token at = record {
  id = none;
  envelope_type = codes "sealed";
  routing_token = some token;
  to = none;
  payload = some (codes "payload");
  encrypted = none;
  timestamp = at;
  dht_replication_count = none;
  rest = [];
}

-- A sealed envelope is its time before its token.
abbrev pub format : Format
format = record {
  envelope_text = λ e. e.timestamp ∷ text_of e.routing_token;
  envelope_of = read;
  id_text = λ token hash at. at ∷ text_of token;
}
  where
    text_of : Option Text → Text
    text_of none = []
    text_of (some t) = t

    read : Text → Option Envelope
    read [] = none
    read (at ∷ token) = some (sealed_for token at)

abbrev bob : Text
bob = codes "dm1b"

abbrev to_bob : Envelope
to_bob = sealed_for (codes "dmail-routing-v2dm1b") 400

abbrev moment : Moment
moment = record { now = 500; today = 1; first_id = codes "i"; second_id = codes "j" }

abbrev bobs : Node mail.Store
bobs = record { messages = []; handled = [] }

is_bobs : is_for_us toy plain bob to_bob ≡ true
unfolding is_for_us is_sealed generate_routing_token text_discrete
is_bobs = refl

abbrev request : StoreRequest
request = store_request plain format to_bob (codes "dmail-routing-v2dm1b") 450

sends : store_on_relays plain format to_bob 450 ≡ some request
unfolding store_on_relays storage_key is_sealed text_discrete
sends = refl

is_new : IsNew db moment.first_id (codes "k") relay.messages
unfolding get
is_new = ((λ e. ground arith), (λ k v g. absurd (none-ne-some v g)))

readable : IsReadable plain format (
    fetch_records db
      (codes "k")
      600
      (fetch_request toy plain bob)
      (handle_store_request plain db (some request) moment relay).0.messages)
unfolding fetch_records handle_store_request fetch_request text_discrete message_key get_messages
    collect starts_with message_record is_expired store_record prove store_replica add_unseen
    is_seen generate_routing_token get set sort insert read_data
readable q (inl e) = (to_bob, ap (λ x. read_data plain format x.message_data) e)
readable q (inr i) = absurd i

no_others :
    All
      (Only plain format moment.first_id to_bob)
      (all_fetched plain format (record { dht = none; legacy = some failed } ∷ []))
unfolding fetch_messages_from_peer
no_others = tt

store_on_relays-HasUnread_example :
    let stored = (handle_store_request plain db (some request) moment relay).0.messages in
    let answer =
      handle_dht_fetch_request db (some (fetch_request toy plain bob)) (codes "k") 600 stored in
    mail.get
      (inbox_key moment.first_id)
      (fetch_from_all_peers plain format mail 700
        (record { dht = some answer; legacy = none }
          ∷ record { dht = none; legacy = some failed }
          ∷ [])
        bobs).messages
    ≡ some (inbox_entry to_bob 700 false)
store_on_relays-HasUnread_example =
    store_on_relays-HasUnread toy plain plain_laws format db entry_list_laws mail entry_list_laws
      bob (codes "k") to_bob request 450 600 700 moment relay none
      (record { dht = none; legacy = some failed } ∷ []) bobs is_bobs sends (λ e. ground arith)
      (λ e. ground arith) (omega arith) is_new refl readable no_others

abbrev bobs_record : Json
bobs_record = record {
  id = some (codes "i");
  recipient = bob;
  message_data = 400 ∷ codes "dmail-routing-v2dm1b";
  timestamp = some 450;
  expires = none;
  storage_proofs = none;
  replication_count = some 2;
}

abbrev broken : Json
broken = record bobs_record { message_data = [] }

unread : read_data plain format broken.message_data ≡ none
unfolding read_data
unread = refl

abbrev answers : List Answers
answers = record { dht = some (found (bobs_record ∷ [])); legacy = none } ∷ []

abbrev shown : Message
shown = record { id = codes "i"; envelope = to_bob; received_at = 700; read = false }

In-get_inbox_example :
    IsOrdered IsNewer (get_inbox plain format mail 700 answers bobs).1
    × (In shown (get_inbox plain format mail 700 answers bobs).1 ↔ (
        (id : Text) × (codes "i" ≡ id)
        × (mail.get (inbox_key id) (get_inbox plain format mail 700 answers bobs).0.messages
            ≡ some (inbox_entry to_bob 700 false))))
In-get_inbox_example = In-get_inbox plain format mail entry_list_laws 700 answers bobs shown

abbrev taken : Fetched
taken = record { id = some (codes "i"); envelope = to_bob }

answered : In taken (all_fetched plain format answers)
unfolding fetch_messages_from_peer collect_dht read_data
answered = inl refl

get_inbox-unread_example :
    (m : Message) × In m
      (get_inbox plain format mail 700 answers
        (handle_all plain format mail bobs ((false, codes "i") ∷ []))).1
    × (m.id ≡ shown_id m.envelope.id (id_of plain format taken))
    × (m.read ≡ false)
get_inbox-unread_example =
    get_inbox-unread plain format mail entry_list_laws 700 answers bobs ((false, codes "i") ∷ [])
      taken answered

fetch_messages_from_peer-stops_example :
    fetch_messages_from_peer plain format
      (record { dht = some (found (bobs_record ∷ broken ∷ bobs_record ∷ [])); legacy = none })
    ≡ fetch_messages_from_peer plain format
        (record { dht = some (found (bobs_record ∷ broken ∷ [])); legacy = none })
fetch_messages_from_peer-stops_example =
    fetch_messages_from_peer-stops plain format (bobs_record ∷ []) (bobs_record ∷ []) [] broken none
      unread
