-- ===== src/Storage/DhtStorage/History.antt =====
-- src/storage/dht-storage.js: a message between its storing and its reading.
use chainmail_protocol.Base.{
  ℕ, zero, suc, ◌+◌, ◌≤◌, ◌<◌, ◌≡◌, ◌≢◌, refl, ap, ◌∙◌, List, [], ◌∷◌, Option, none, some,
  if◌then◌else◌, ltb, Text, text_discrete, arith, All, or_else, le→ltb_false, if_pos,
}
use chainmail_protocol.Base.Database.{Db, DbLaws}
use chainmail_protocol.Crypto.{Encodings}
use chainmail_protocol.Storage.DhtStorage.{
  MessageRecord, Json, message_ttl, message_key, message_record, is_expired, to_json, Signer, prove,
  store_record, store, add_proof, get_message, alive, delete_message, cleanup_expired, text_or,
}
use chainmail_protocol.Storage.DhtStorage.Lookup.{unexpired, get-cleanup_expired}

-- The calls that write to the database; `stores` is `storeRecord`, to which `store` comes down too.
pub data Call : Type 0 where
  stores : Option Signer → ℕ → MessageRecord → Call
  deletes : Text → Text → Call
  cleans : Text → ℕ → Call

or_else_pos : (n d : ℕ) → 0 < n → or_else (some n) d ≡ n
or_else_pos zero d h = omega arith
or_else_pos (suc n) d h = refl

or_else_zero : (n : ℕ) → or_else (some n) 0 ≡ n
or_else_zero zero = refl
or_else_zero (suc n) = refl

pub text_or_lem : (t d : Text) → t ≢ [] → text_or (some t) d ≡ t
text_or_lem [] d h = absurd (h refl)
text_or_lem (c ∷ t) d h = refl

-- A record is read back as it was written.
pub message_record-to_json :
    (fresh : Text) (now : ℕ) (r : MessageRecord)
    → r.id ≢ []
    → 0 < r.timestamp
    → 0 < r.expires
    → message_record fresh now (to_json r) ≡ r
unfolding message_record to_json
message_record-to_json fresh now r i t e = rw (text_or_lem r.id fresh i) (
    rw (or_else_pos r.timestamp now t) (
      rw (or_else_pos r.expires (now + message_ttl) e)
        (rw (or_else_zero r.replication_count) refl)))

module _ (c : Encodings) (db : Db Json) where
  unfoldable pub step : db.Store → Call → db.Store
  step s (stores signer now r) = (store_record c db signer now r s).0
  step s (deletes recipient id) = delete_message db recipient id s
  step s (cleans fresh now) = (cleanup_expired db fresh now s).0

  unfoldable pub run : db.Store → List Call → db.Store
  unfolding step
  run s [] = s
  run s (x ∷ xs) = run (step s x) xs

  -- The call writes no record under the key `k`, and deletes none that expires at `ends`.
  abbrev pub Spares : Text → ℕ → Call → Type 0
  Spares k ends (stores signer now r) =
      k ≢ message_key (prove c signer now r).recipient (prove c signer now r).id
  Spares k ends (deletes recipient id) = k ≢ message_key recipient id
  Spares k ends (cleans fresh now) = now ≤ ends

  module _ (laws : DbLaws db) where
    unexpired-to_json :
        (fresh : Text) (now : ℕ) (r : MessageRecord)
        → 0 < r.expires
        → now ≤ r.expires
        → unexpired db laws fresh now (some (to_json r)) ≡ some (to_json r)
    unfolding message_record to_json
    unexpired-to_json fresh now r e h =
        rw (or_else_pos r.expires (now + message_ttl) e) (rw (le→ltb_false r.expires now h) refl)

    get-step :
        (k : Text) (r : MessageRecord) (s : db.Store) (x : Call)
        → 0 < r.expires
        → Spares k r.expires x
        → db.get k s ≡ some (to_json r)
        → db.get k (step s x) ≡ some (to_json r)
    unfolding step store_record delete_message
    get-step k r s (stores signer now q) e h g = ground (
      arith,
      laws.get-put k (message_key (prove c signer now q).recipient (prove c signer now q).id)
          (to_json (prove c signer now q)) s,
    )
    get-step k r s (deletes recipient id) e h g =
        ground (arith, laws.get-del k (message_key recipient id) s)
    get-step k r s (cleans fresh now) e h g =
        get-cleanup_expired db laws fresh now k s
        ∙ ap (unexpired db laws fresh now) g
        ∙ unexpired-to_json fresh now r e h

    get-run :
        (k : Text) (r : MessageRecord) (s : db.Store) (xs : List Call)
        → 0 < r.expires
        → All (Spares k r.expires) xs
        → db.get k s ≡ some (to_json r)
        → db.get k (run s xs) ≡ some (to_json r)
    unfolding run
    get-run k r s [] e h g = g
    get-run k r s (x ∷ xs) e h g = get-run k r (step s x) xs e h.1 (get-step k r s x e h.0 g)

    get_message-some :
        (fresh : Text) (later : ℕ) (recipient id : Text) (s : db.Store) (v : Json)
        → db.get (message_key recipient id) s ≡ some v
        → get_message db fresh later recipient id s ≡ alive db later (message_record fresh later v)
    unfolding get_message
    get_message-some fresh later recipient id s v g =
        ap (λ o. elim o [ none ↦ none | some w ↦ alive db later (message_record fresh later w) ]) g

    get-put_run :
        (fresh : Text) (later : ℕ) (r : MessageRecord) (s : db.Store) (xs : List Call)
        → r.id ≢ []
        → 0 < r.timestamp
        → 0 < r.expires
        → All (Spares (message_key r.recipient r.id) r.expires) xs
        → get_message db fresh later r.recipient r.id
            (run (db.put (message_key r.recipient r.id) (to_json r) s) xs)
          ≡ (if ltb r.expires later then none else some r)
    unfolding is_expired
    get-put_run fresh later r s xs i t e a =
        get_message-some fresh later r.recipient r.id
          (run (db.put (message_key r.recipient r.id) (to_json r) s) xs) (to_json r)
          (get-run (message_key r.recipient r.id) r
            (db.put (message_key r.recipient r.id) (to_json r) s) xs e a
            (laws.get-put (message_key r.recipient r.id) (message_key r.recipient r.id) (to_json r)
                s
              ∙ if_pos (text_discrete (message_key r.recipient r.id) (message_key r.recipient r.id))
                  refl (some (to_json r)) (db.get (message_key r.recipient r.id) s)))
        ∙ ap (alive db later) (message_record-to_json fresh later r i t e)

    -- A message that a node has stored is read back as it was returned, its proof included, for the
    -- seven days until it expires, and not any more afterwards, whatever is stored under other keys,
    -- deleted and cleaned up in between, if no clean-up runs with a clock past that time.
    pub get_message-store :
        (signer : Option Signer) (ch : ℕ) (id fresh : Text) (now later : ℕ) (recipient text : Text)
        (s : db.Store) (xs : List Call)
        → 0 < now
        → All (Spares (message_key recipient (ch ∷ id)) (now + message_ttl)) xs
        → get_message db fresh later recipient
            (ch ∷ id)
            (run (store c db signer (ch ∷ id) now recipient text s).0 xs)
          ≡ (if ltb (now + message_ttl) later
              then none
              else some (store c db signer (ch ∷ id) now recipient text s).1)
    unfolding store store_record prove add_proof message_record
    get_message-store none ch id fresh (suc n) later recipient text s xs h a =
        get-put_run fresh later (store c db none (ch ∷ id) (suc n) recipient text s).1 s xs
          (λ q. cc) (omega arith) (omega arith) a
    get_message-store (some signer) ch id fresh (suc n) later recipient text s xs h a =
        get-put_run fresh later (store c db (some signer) (ch ∷ id) (suc n) recipient text s).1 s xs
          (λ q. cc) (omega arith) (omega arith) a
    get_message-store signer ch id fresh zero later recipient text s xs h a =
        absurd (omega (arith, h))
