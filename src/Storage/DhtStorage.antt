-- ===== src/Storage/DhtStorage.antt =====
-- src/storage/dht-storage.js: records of messages, proofs that a node stores them, the storage of a
-- node over its database, and the collection of messages from other nodes.
use chainmail_protocol.Base.{
  ℕ, ◌+◌, ◌*◌, ◌≡◌, Bool, true, false, not, ◌↔◌, List, [], ◌∷◌, ◌++◌, Option, none, some, ite,
  if◌then◌else◌, leb, ltb, Text, Bytes, or_else, codes, text_discrete, starts_with, length, holds,
  map,
}
use chainmail_protocol.Base.Dict.{Dict, In, get, set, text_key}
use chainmail_protocol.Base.Database.{Db}
use chainmail_protocol.Crypto.{Encodings}
use chainmail_protocol.Base.Sort.{sort, by_key}
pub mod Lookup
pub mod History
pub mod Merge

pub record StorageProof : Type 0 where
  pub node_id : Text
  pub message_hash : Text
  pub timestamp : ℕ
  pub signature : Text

pub record MessageRecord : Type 0 where
  pub id : Text
  pub recipient : Text
  pub message_data : Text
  pub timestamp : ℕ
  pub expires : ℕ
  pub storage_proofs : List StorageProof
  pub replication_count : ℕ

-- What the constructor is given, and what is kept of a record as JSON.
pub record Json : Type 0 where
  pub id : Option Text
  pub recipient : Text
  pub message_data : Text
  pub timestamp : Option ℕ
  pub expires : Option ℕ
  pub storage_proofs : Option (List StorageProof)
  pub replication_count : Option ℕ

abbrev pub replication_factor : ℕ
replication_factor = 3

abbrev pub message_ttl : ℕ
message_ttl = 7 * 24 * 60 * 60 * 1000

unfoldable pub message_key : Text → Text → Text
message_key recipient id = recipient ++ codes ":" ++ id

-- `x || d` on strings and arrays: a missing or empty string counts as missing, an empty list not.
abbrev pub text_or : Option Text → Text → Text
text_or none d = d
text_or (some []) d = d
text_or (some (c ∷ s)) d = c ∷ s

abbrev pub list_or : Option (List StorageProof) → List StorageProof
list_or none = []
list_or (some ps) = ps

-- `fresh` is the random id.
unfoldable pub message_record : Text → ℕ → Json → MessageRecord
message_record fresh now o = record {
  id = text_or o.id fresh;
  recipient = o.recipient;
  message_data = o.message_data;
  timestamp = or_else o.timestamp now;
  expires = or_else o.expires (now + message_ttl);
  storage_proofs = list_or o.storage_proofs;
  replication_count = or_else o.replication_count 0;
}

unfoldable pub is_expired : ℕ → MessageRecord → Bool
is_expired now r = ltb r.expires now

unfoldable pub add_proof : StorageProof → MessageRecord → MessageRecord
add_proof p r = record r {
  storage_proofs = r.storage_proofs ++ p ∷ [];
  replication_count = length (r.storage_proofs ++ p ∷ []);
}

unfoldable pub to_json : MessageRecord → Json
to_json r = record {
  id = some r.id;
  recipient = r.recipient;
  message_data = r.message_data;
  timestamp = some r.timestamp;
  expires = some r.expires;
  storage_proofs = some r.storage_proofs;
  replication_count = some r.replication_count;
}

-- `nodeId` and `signFn` of a storage that has both.
pub record Signer : Type 0 where
  pub node_id : Text
  pub sign : Bytes → Bytes

module _ (c : Encodings) where
  unfoldable pub hash_of : Bytes → Text
  hash_of bytes = c.hex (c.sha256 bytes)

  abbrev pub proof_data : Text → Text → ℕ → Bytes
  proof_data node hash now = c.utf8 (node ++ codes ":" ++ hash ++ codes ":" ++ c.digits now)

  unfoldable pub create_proof : Signer → Bytes → ℕ → StorageProof
  unfolding hash_of
  create_proof signer bytes now = record {
    node_id = signer.node_id;
    message_hash = hash_of bytes;
    timestamp = now;
    signature = c.hex (signer.sign (proof_data signer.node_id (hash_of bytes) now));
  }

  -- `from_hex` reads the signature back.
  unfoldable pub verify_proof :
      (Text → Bytes) → (Bytes → Bytes → Bool) → Bytes → StorageProof → Bool
  unfolding hash_of
  verify_proof from_hex verify bytes p =
      if holds (text_discrete p.message_hash (hash_of bytes))
      then verify (proof_data p.node_id p.message_hash p.timestamp) (from_hex p.signature)
      else false

  unfoldable pub prove : Option Signer → ℕ → MessageRecord → MessageRecord
  unfolding create_proof add_proof
  prove none now r = r
  prove (some signer) now r = add_proof (create_proof signer (c.from_base64 r.message_data) now) r

  -- The valid and the invalid proofs.
  unfoldable pub count_proofs : Text → List StorageProof → ℕ × ℕ
  count_proofs expected [] = (0, 0)
  count_proofs expected (p ∷ ps) =
      let (valid, invalid) = count_proofs expected ps in
      if holds (text_discrete p.message_hash expected)
      then (valid + 1, invalid)
      else (valid, invalid + 1)

  unfoldable pub verify_proofs : MessageRecord → ℕ × ℕ
  unfolding count_proofs hash_of
  verify_proofs r = count_proofs (hash_of (c.from_base64 r.message_data)) r.storage_proofs

  module _ (db : Db Json) where
    unfoldable pub store_record :
        Option Signer → ℕ → MessageRecord → db.Store → db.Store × MessageRecord
    unfolding prove message_key to_json
    store_record signer now r s =
        let r' = prove signer now r in (db.put (message_key r'.recipient r'.id) (to_json r') s, r')

    unfoldable pub store :
        Option Signer → Text → ℕ → Text → Text → db.Store → db.Store × MessageRecord
    unfolding store_record message_record
    store signer fresh now recipient text s =
        store_record signer now
          (message_record fresh now (record {
            id = none;
            recipient = recipient;
            message_data = text;
            timestamp = some now;
            expires = none;
            storage_proofs = none;
            replication_count = none;
          }))
          s

module _ (db : Db Json) where
  abbrev pub alive : ℕ → MessageRecord → Option MessageRecord
  alive now r = if is_expired now r then none else some r

  -- `fresh` is the id that a record without one is given when it is read.
  unfoldable pub get_message : Text → ℕ → Text → Text → db.Store → Option MessageRecord
  unfolding message_key message_record is_expired
  get_message fresh now recipient id s = elim (db.get (message_key recipient id) s) [
    | none ↦ none
    | some v ↦ alive now (message_record fresh now v)
  ]

  unfoldable pub collect : Text → ℕ → Text → List (Text × Json) → List MessageRecord
  unfolding message_record is_expired
  collect fresh now prefix [] = []
  collect fresh now prefix ((k, v) ∷ es) =
      let rest = collect fresh now prefix es in
      if starts_with k prefix
      then (if is_expired now (message_record fresh now v)
          then rest
          else message_record fresh now v ∷ rest)
      else rest

  abbrev pub timestamp_of : MessageRecord → ℕ
  timestamp_of r = r.timestamp

  unfoldable pub get_messages : Text → ℕ → Text → db.Store → List MessageRecord
  unfolding collect
  get_messages fresh now recipient s =
      sort (by_key timestamp_of) (collect fresh now (recipient ++ codes ":") (db.iterator s))

  unfoldable pub delete_message : Text → Text → db.Store → db.Store
  unfolding message_key
  delete_message recipient id s = db.del (message_key recipient id) s

  unfoldable pub delete_messages : Text → List Text → db.Store → db.Store
  unfolding delete_message
  delete_messages recipient [] s = s
  delete_messages recipient (id ∷ ids) s =
      delete_messages recipient ids (delete_message recipient id s)

  unfoldable pub expired_keys : Text → ℕ → List (Text × Json) → List Text
  unfolding message_record is_expired
  expired_keys fresh now [] = []
  expired_keys fresh now ((k, v) ∷ es) =
      let rest = expired_keys fresh now es in
      if is_expired now (message_record fresh now v) then k ∷ rest else rest

  unfoldable pub delete_keys : List Text → db.Store → db.Store
  delete_keys [] s = s
  delete_keys (k ∷ ks) s = delete_keys ks (db.del k s)

  unfoldable pub cleanup_expired : Text → ℕ → db.Store → db.Store × ℕ
  unfolding expired_keys delete_keys
  cleanup_expired fresh now s =
      let ks = expired_keys fresh now (db.iterator s) in (delete_keys ks s, length ks)

-- `DHTCoordinator.fetchFromNetwork`: a record replaces the one of its id that has fewer replicas.
abbrev pub keep_better :
    Option MessageRecord → MessageRecord → Dict Text MessageRecord → Dict Text MessageRecord
keep_better none r m = set r.id r m
keep_better (some old) r m =
    if ltb old.replication_count r.replication_count then set r.id r m else m

unfoldable pub merge : List MessageRecord → Dict Text MessageRecord → Dict Text MessageRecord
merge [] m = m
merge (r ∷ rs) m = merge rs (keep_better (get r.id m) r m)

unfoldable pub set_all : List MessageRecord → Dict Text MessageRecord → Dict Text MessageRecord
set_all [] m = m
set_all (r ∷ rs) m = set_all rs (set r.id r m)

-- The answers of the nodes in their order; `none` is a node whose fetch failed.
unfoldable pub merge_answers :
    List (Option (List MessageRecord)) → Dict Text MessageRecord → Dict Text MessageRecord
unfolding merge
merge_answers [] m = m
merge_answers (none ∷ rest) m = merge_answers rest m
merge_answers (some rs ∷ rest) m = merge_answers rest (merge rs m)

unfoldable pub fetch_from_network :
    List MessageRecord → List (Option (List MessageRecord)) → List MessageRecord
unfolding set_all merge_answers
fetch_from_network local answers = map (λ e. e.1) (merge_answers answers (set_all local []))
