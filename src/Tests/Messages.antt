-- ===== src/Tests/Messages.antt =====
-- src/protocol and src/crypto/identity.js at concrete inputs.
use chainmail_protocol.Base.{◌≡◌, refl, true, [], ◌∷◌, some, none, codes, arith}
use chainmail_protocol.Base.Dict.{get}
use chainmail_protocol.Crypto.Encryption.{Salt}
use chainmail_protocol.Crypto.Identity.{
  Identity, address, encryption_public_key, get_identity, save_identity, get_default_identity,
}
use chainmail_protocol.Crypto.Identity.Stored.{get_identity-save_identity}
use chainmail_protocol.Tests.Entries.{entry_list, entry_list_laws}
use chainmail_protocol.Crypto.ProofOfWork.{proof_at, verify_proof_of_work}
use chainmail_protocol.Protocol.{ok}
use chainmail_protocol.Protocol.Message.{
  Draft, Envelope, Signed, hash_envelope, sealed, build, received, parse, new_draft, subject, body,
  attachment, to, stamped,
}
use chainmail_protocol.Protocol.Message.Exchange.{parse-build, parse-unworked}
use chainmail_protocol.Tests.Texts.{format, content_of-content_text, signing, signing_laws}
use chainmail_protocol.Tests.Toy.{toy, toy_laws}
use chainmail_protocol.Tests.Work.{short, short_laws, short_hashes}

abbrev alice : Identity
alice = record { private_key = 7 ∷ []; public_key = 7 ∷ [] }

abbrev bob : Identity
bob = record { private_key = 8 ∷ 9 ∷ []; public_key = 8 ∷ 9 ∷ [] }

get_identity-save_identity_example :
    (get_identity signing short entry_list
        (codes "bob")
        (save_identity signing short entry_list (codes "bob") bob [])
      ≡ some bob)
    × (get_default_identity signing short entry_list
          (save_identity signing short entry_list (codes "bob") bob [])
        ≡ none)
unfolding get
get_identity-save_identity_example =
    get_identity-save_identity signing short entry_list entry_list_laws short_laws (codes "bob") bob
      [] refl

abbrev salt : Salt
salt = record { secret = 3 ∷ []; nonce = 4 ∷ [] }

abbrev draft : Draft
draft = subject (codes "hi") (body (codes "there") (attachment (codes "{}") (new_draft alice 5)))

abbrev letter : Signed
letter =
    sealed toy short signing format salt draft (address signing bob)
      (encryption_public_key toy short bob)

letter_work :
    verify_proof_of_work short
      (hash_envelope toy short signing format letter)
      (proof_at short (hash_envelope toy short signing format letter) 18 0)
    ≡ true
unfolding verify_proof_of_work hash_envelope
letter_work = refl

parse-build_example :
    (e : Envelope) × (build toy short signing format salt
        (to (address signing bob) draft)
        (some (encryption_public_key toy short bob))
      ≡ ok e)
    × (parse toy short signing format bob e
        ≡ ok (received toy short signing format e draft.content))
    × (e.signed.from ≡ address signing alice)
unfolding subject body attachment new_draft
parse-build_example =
    parse-build toy short signing format toy_laws short_laws signing_laws content_of-content_text
      salt draft bob 0 refl (omega arith) letter_work

parse-unworked_example :
    (let e =
        stamped toy short signing format alice
          (sealed toy short signing format salt draft
            (address signing bob)
            (encryption_public_key toy short bob))
          (record { nonce = codes "0"; hash = []; difficulty = 0 }) in
      (parse toy short signing format bob e
        ≡ ok (received toy short signing format e draft.content))
      × (e.signed.from ≡ address signing alice))
unfolding subject body attachment new_draft
parse-unworked_example =
    parse-unworked toy short signing format toy_laws short_laws signing_laws content_of-content_text
      short_hashes salt draft bob (codes "0") [] refl
