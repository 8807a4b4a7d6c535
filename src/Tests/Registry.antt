-- ===== src/Tests/Registry.antt =====
-- src/registry/username-registry.js at concrete inputs. A signature is the address that it recovers
-- to, and the database is a list of entries.
use chainmail_protocol.Base.{
  ◌≡◌, refl, [], ◌∷◌, ◌++◌, Option, some, Text, codes, text_discrete, to_lower_case,
}
use chainmail_protocol.Base.Dict.{get, text_key}
use chainmail_protocol.Base.Database.{Db, DbLaws}
use chainmail_protocol.Tests.Entries.{entry_list, entry_list_laws}
use chainmail_protocol.Registry.{
  Registration, ok, register, get_by_username, registration, validate_username, validate_lower,
  matches_username, is_among, register_as, resolve, before_at,
}
use chainmail_protocol.Registry.Names.{Request, run, get_by_username-register}
use chainmail_protocol.Registry.Addresses.{direct_or, resolve-register}

abbrev db : Db Registration
db = entry_list

db_laws : DbLaws db
db_laws = entry_list_laws

abbrev recover : Text → Text → Option Text
recover message signature = some signature

abbrev domain : Text
domain = codes "dmail.network"

abbrev request : Request
request = record {
  username = codes "Alice";
  dmail_address = codes "dm1a";
  wallet_address = codes "0xA";
  signature = codes "0xa";
  now = 400;
}

abbrev later_request : Request
later_request = record request { dmail_address = codes "dm1b"; now = 500 }

abbrev alice : Registration
alice = registration db recover domain (codes "alice") (codes "dm1a") (codes "0xA") 400

alice_registers :
    (register db recover domain request.username request.dmail_address request.wallet_address
      request.signature request.now []).1
    ≡ ok alice
unfolding register validate_username to_lower_case validate_lower matches_username is_among
    register_as get_by_username get text_discrete
alice_registers = refl

get_by_username-register_example :
    get_by_username db recover domain request.username (
      run db db_laws recover domain
        (register db recover domain request.username request.dmail_address request.wallet_address
          request.signature request.now []).0
        (later_request ∷ []))
    ≡ some alice
get_by_username-register_example =
    get_by_username-register db db_laws recover domain alice request [] (later_request ∷ [])
      alice_registers

resolve-register_example :
    (resolve db recover domain request.username (
        run db db_laws recover domain
          (register db recover domain request.username request.dmail_address request.wallet_address
            request.signature request.now []).0
          (later_request ∷ []))
      ≡ direct_or request.username alice)
    × (resolve db recover domain (request.username ++ b'@' ∷ domain) (
          run db db_laws recover domain
            (register db recover domain request.username request.dmail_address
              request.wallet_address request.signature request.now []).0
            (later_request ∷ []))
        ≡ direct_or (request.username ++ b'@' ∷ domain) alice)
unfolding before_at
resolve-register_example =
    resolve-register db db_laws recover domain alice request [] (later_request ∷ []) refl
      alice_registers
