-- ===== src/Tests/Sealed.antt =====
-- src/protocol/sealed-envelope.js at concrete inputs.
use chainmail_protocol.Base.{◌≡◌, refl, true, [], ◌∷◌, some, none, codes}
use chainmail_protocol.Crypto.Identity.{Identity, address, encryption_public_key}
use chainmail_protocol.Protocol.{ok}
use chainmail_protocol.Protocol.SealedEnvelope.{
  SealedDraft, SealedEnvelope, Opened, Chance, inner_of, seal_inner, build, opened, parse,
  is_for_me,
}
use chainmail_protocol.Protocol.SealedEnvelope.Exchange.{parse-build_sealed, parse-forged}
use chainmail_protocol.Tests.Texts.{sealed_format, signed_of-signed_text, signing, signing_laws}
use chainmail_protocol.Tests.Toy.{toy, toy_laws, plain, plain_laws}

abbrev mallory : Identity
mallory = record { private_key = 7 ∷ []; public_key = 7 ∷ [] }

abbrev bob : Identity
bob = record { private_key = 8 ∷ 9 ∷ []; public_key = 8 ∷ 9 ∷ [] }

abbrev chance : Chance
chance = record {
  now = 1000000;
  later = 1000001;
  shift = 5;
  salt = record { secret = 3 ∷ []; nonce = 4 ∷ [] };
  padding = 1 ∷ 2 ∷ [];
}

abbrev draft : SealedDraft
draft = record {
  sender = mallory;
  recipient = some (address signing bob, encryption_public_key toy plain bob);
  content = record {
    subject = some (codes "hi");
    body = some (codes "there");
    attachments = some (codes "{}" ∷ []);
    reply_to = none;
    thread_id = none;
  };
}

parse-build_sealed_example :
    (e : SealedEnvelope) × (build toy plain signing sealed_format chance draft ≡ ok e)
    × (parse toy plain signing sealed_format bob e
        ≡ ok (
            opened toy plain signing sealed_format
              (inner_of toy plain signing sealed_format draft (address signing bob) chance.now)))
    × (is_for_me toy plain signing sealed_format bob e ≡ true)
    × ((inner_of toy plain signing sealed_format draft (address signing bob) chance.now).from
        ≡ address signing mallory)
parse-build_sealed_example =
    parse-build_sealed toy plain signing sealed_format toy_laws plain_laws signing_laws
      signed_of-signed_text chance draft bob refl refl

parse-forged_example :
    (m : Opened) × (parse toy plain signing sealed_format bob (
        seal_inner toy plain signing sealed_format chance mallory
          (record (inner_of toy plain signing sealed_format draft
            (address signing bob)
            chance.now) { from = codes "dm1alice" })
          (address signing bob)
          (encryption_public_key toy plain bob))
      ≡ ok m)
    × (m.from ≡ codes "dm1alice")
    × (m.content ≡ draft.content)
    × (m.verified ≡ true)
parse-forged_example =
    parse-forged toy plain signing sealed_format toy_laws plain_laws signing_laws
      signed_of-signed_text chance draft bob (codes "dm1alice") refl
