-- ===== src/Tests/Relay.antt =====
-- src/network/relay-node.js at concrete inputs, over a database that is a list of entries.
use chainmail_protocol.Base.{
  ◌≡◌, refl, sym, subst, [], ◌∷◌, Option, none, some, Bytes, codes, text_discrete, arith, map,
}
use chainmail_protocol.Base.Database.{Db, DbLaws}
use chainmail_protocol.Base.Dict.{get, text_key}
use chainmail_protocol.Network.RateLimiter.{allowed, live, requests_of, get_rate}
use chainmail_protocol.Network.SizeLimiter
use chainmail_protocol.Network.Reputation.{
  Limiter, check, check_rate, check_sizes, get_adjusted_limit, multiplier_from, reputation_of,
}
use chainmail_protocol.Network.Reputation.Limits.{IsCapped}
use chainmail_protocol.Network.RelayNode.{
  Relay, Envelope, Message, Moment, new_stats, handle_message, handle_fetch_request, kept,
  delivered, sender_of, storage_key, is_sealed,
}
use chainmail_protocol.Network.RelayNode.Storing.{
  Rises, time_of, messages, fetches, run, last_time, plain_record, handle_message-stores,
  run-IsCapped,
}
use chainmail_protocol.Network.RelayNode.Fetching.{IsKeyed, HasKey, handle_fetch_request-delivers}
use chainmail_protocol.Storage.DhtStorage.{Json, to_json, message_key, get_messages}
use chainmail_protocol.Tests.Entries.{entry_list, entry_list_laws}
use chainmail_protocol.Tests.Toy.{plain}

abbrev db : Db Json
db = entry_list

db_laws : DbLaws db
db_laws = entry_list_laws

abbrev limiter : Limiter
limiter = record {
  base = record {
    max_requests = 30;
    window_ms = 60000;
    global_max_requests = 5000;
    requests = [];
    global_requests = [];
  };
  sizes = record { max_message_size = 1000; max_daily_storage = 5000; daily_usage = [] };
  reputations = [];
}

abbrev pub relay : Relay db.Store
relay = record { limiter = limiter; stats = new_stats 0; messages = [] }

abbrev envelope : Envelope
envelope = record {
  from = some (codes "dm1b");
  envelope_type = codes "plain";
  routing_token = none;
  to = some (codes "dm1a");
}

abbrev message : Message
message = record { from = none; bytes = 1 ∷ 2 ∷ 3 ∷ [] }

abbrev moment : Moment
moment = record { now = 400; today = 1; first_id = codes "i"; second_id = codes "j" }

abbrev parse : Bytes → Option (Option Envelope)
parse bytes = some (some envelope)

lets_through : check limiter 400 1 (sender_of envelope message) 3 ≡ allowed
unfolding check check_rate check_sizes get_adjusted_limit multiplier_from reputation_of sender_of
    SizeLimiter.check get_rate requests_of live get
lets_through = refl

has_key : storage_key envelope ≡ some (codes "dm1a")
unfolding storage_key is_sealed text_discrete
has_key = refl

handle_message-stores_example :
    let (r', outcome) = handle_message plain db parse moment message relay in
    (outcome ≡ kept)
    × (db.get (message_key (codes "dm1a") (codes "i")) r'.messages
        ≡ some (to_json (plain_record plain db (codes "i") 400 (codes "dm1a") (1 ∷ 2 ∷ 3 ∷ []))))
    × (db.get (message_key (codes "dm1a") (codes "j")) r'.messages
        ≡ some (to_json (plain_record plain db (codes "j") 400 (codes "dm1a") (1 ∷ 2 ∷ 3 ∷ []))))
handle_message-stores_example =
    handle_message-stores plain db db_laws parse moment message envelope (codes "dm1a") relay refl
      lets_through has_key (λ e. ground arith)

in_order : Rises 0 (messages moment message ∷ fetches 500 [] (some none) ∷ [])
unfolding time_of
in_order = (omega arith, (omega arith, tt))

at_most : IsCapped limiter 0
unfolding live requests_of get
at_most s = omega arith

run-IsCapped_example :
    IsCapped
      (run plain db parse relay (messages moment message ∷ fetches 500 [] (some none) ∷ [])).limiter
      (last_time 0 (messages moment message ∷ fetches 500 [] (some none) ∷ []))
run-IsCapped_example =
    run-IsCapped plain db parse 0 relay (messages moment message ∷ fetches 500 [] (some none) ∷ [])
      in_order at_most

abbrev note_to_a : Json
note_to_a = record {
  id = some (codes "id");
  recipient = codes "dm1a";
  message_data = codes "text";
  timestamp = some 400;
  expires = some 900;
  storage_proofs = none;
  replication_count = some 1;
}

abbrev keeping : Relay db.Store
keeping = record relay { messages = (codes "dm1a:id", note_to_a) ∷ [] }

note-HasKey : HasKey (codes "dm1a:id") note_to_a
unfolding message_key
note-HasKey = (
  codes "id",
  refl,
  (λ e. ground arith),
  (omega arith, (omega arith, tt)),
  (omega arith, (omega arith, (omega arith, (omega arith, tt)))),
  refl,
)

keeping-IsKeyed : IsKeyed db keeping.messages
unfolding get message_key
keeping-IsKeyed k v g = elim (text_discrete k (codes "dm1a:id")) [
  | yes e ↦
      subst (HasKey k) {x = note_to_a} {y = v} (ground arith)
        (subst (λ j. HasKey j note_to_a) (sym e) note-HasKey)
  | no d ↦ absurd (ground arith)
]

handle_fetch_request-delivers_example :
    let (r', answer) = handle_fetch_request db (some (some (codes "dm1a"))) [] 500 keeping in
    (answer
      ≡ delivered (
          map
            (λ q. (q.message_data, q.timestamp))
            (get_messages db [] 500 (codes "dm1a") keeping.messages)))
    × (get_messages db [] 500 (codes "dm1a") r'.messages ≡ [])
handle_fetch_request-delivers_example =
    handle_fetch_request-delivers db db_laws b'd' (codes "m1a") [] [] 500 keeping keeping-IsKeyed
