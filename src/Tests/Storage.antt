-- ===== src/Tests/Storage.antt =====
-- src/storage/dht-storage.js at concrete inputs, over a database that is a list of entries.
use chainmail_protocol.Base.{◌+◌, ◌≡◌, [], ◌∷◌, none, some, if◌then◌else◌, ltb, codes, arith}
use chainmail_protocol.Base.Dict.{text_key}
use chainmail_protocol.Base.Database.{Db, DbLaws}
use chainmail_protocol.Tests.Entries.{entry_list, entry_list_laws}
use chainmail_protocol.Tests.Toy.{plain}
use chainmail_protocol.Storage.DhtStorage.{Json, message_ttl, Signer, store, get_message}
use chainmail_protocol.Storage.DhtStorage.History.{cleans, run, get_message-store}

abbrev db : Db Json
db = entry_list

db_laws : DbLaws db
db_laws = entry_list_laws

abbrev signer : Signer
signer = record { node_id = codes "node"; sign = λ b. b }

get_message-store_example :
    get_message db [] 5000 (codes "dm1a") (codes "id") (
      run plain db
        (store plain db (some signer) (codes "id") 400 (codes "dm1a") (codes "text") []).0
        (cleans [] 4000 ∷ []))
    ≡ (if ltb (400 + message_ttl) 5000
        then none
        else some
            (store plain db (some signer) (codes "id") 400 (codes "dm1a") (codes "text") []).1)
get_message-store_example =
    get_message-store plain db db_laws (some signer) b'i' (codes "d") [] 400 5000 (codes "dm1a")
      (codes "text") [] (cleans [] 4000 ∷ []) (omega arith) (omega arith, tt)
