-- ===== src/Protocol/SealedEnvelope.antt =====
-- src/protocol/sealed-envelope.js. JSON is the parameter `SealedFormat`; the clock and random values
-- are arguments.
use chainmail_protocol.Base.{
  ℕ, ◌+◌, ◌-◌, Bool, true, List, [], ◌∷◌, Option, none, some, if◌then◌else◌, not, holds,
  text_discrete, Text, Bytes, codes,
}
use chainmail_protocol.Crypto.{Primitives, Encodings, Signing}
use chainmail_protocol.Crypto.Encryption.{
  Salt, Serialized, seal_for, open_with, serialize_encrypted, deserialize_encrypted,
}
use chainmail_protocol.Crypto.Identity.{
  Identity, address, sign, encryption_private_key, encryption_public_key,
}
use chainmail_protocol.Protocol.{
  Result, ok, failed, recipient_required, not_sealed, not_addressed, invalid_signature, exception,
}
use chainmail_protocol.Protocol.Message.{Content, or_empty, empty_content, attached}
pub mod Exchange

abbrev pub protocol_version : Text
protocol_version = codes "2.0.0"

abbrev pub info_inner : Text
info_inner = codes "dmail-inner-v2"

-- The message of a SealedEnvelopeBuilder: the recipient is an address and an encryption key.
pub record SealedDraft : Type 0 where
  pub sender : Identity
  pub recipient : Option (Text × Bytes)
  pub content : Content

-- What is signed; `extra` stands for any other fields that its JSON has.
pub record Inner : Type 0 where
  pub version : Text
  pub from : Text
  pub from_public_key : Text
  pub from_encryption_key : Text
  pub to : Text
  pub timestamp : ℕ
  pub content : Content
  pub extra : Text

pub record SealedEnvelope : Type 0 where
  pub version : Text
  pub kind : Text
  pub routing_token : Text
  pub timestamp : ℕ
  pub payload : Serialized
  pub padding : Text

pub record Opened : Type 0 where
  pub from : Text
  pub to : Text
  pub content : Content
  pub attachments : List Text
  pub timestamp : ℕ
  pub verified : Bool

-- JSON.stringify without and with the signature, and JSON.parse, which takes the signature out.
pub record SealedFormat : Type 0 where
  pub inner_text : Inner → Text
  pub signed_text : Inner → Text → Text
  pub signed_of : Text → Option (Inner × Text)

-- What a build draws: the two times that it reads, and random values.
pub record Chance : Type 0 where
  pub now : ℕ
  pub later : ℕ
  pub shift : ℕ
  pub salt : Salt
  pub padding : Bytes

unfoldable pub new_draft : Identity → SealedDraft
new_draft i = record { sender = i; recipient = none; content = empty_content }

unfoldable pub to : Text → Bytes → SealedDraft → SealedDraft
to a key d = record d { recipient = some (a, key) }

unfoldable pub subject : Text → SealedDraft → SealedDraft
subject t d = record d { content = record (d.content) { subject = some t } }

unfoldable pub body : Text → SealedDraft → SealedDraft
body t d = record d { content = record (d.content) { body = some t } }

unfoldable pub attachment : Text → SealedDraft → SealedDraft
attachment t d = record d { content = attached t d.content }

module _ (p : Primitives) (c : Encodings) where
  unfoldable pub generate_routing_token : Text → Text
  generate_routing_token a = c.hex (p.hkdf (c.utf8 a) none (c.utf8 (codes "dmail-routing-v2")) 16)

  unfoldable pub encrypt_for_recipient : Salt → Bytes → Bytes → Serialized
  unfolding seal_for serialize_encrypted
  encrypt_for_recipient salt plaintext key =
      serialize_encrypted c (seal_for p (c.utf8 info_inner) salt plaintext key)

  unfoldable pub decrypt_payload : Identity → Serialized → Option Bytes
  unfolding open_with deserialize_encrypted encryption_private_key
  decrypt_payload i payload =
      open_with p (c.utf8 info_inner) (deserialize_encrypted c payload)
        (encryption_private_key p c i)

  module _ (g : Signing) (f : SealedFormat) where
    unfoldable pub inner_hash : Inner → Bytes
    inner_hash n = c.sha256 (c.utf8 (f.inner_text n))

    unfoldable pub inner_of : SealedDraft → Text → ℕ → Inner
    unfolding address encryption_public_key
    inner_of d recipient now = record {
      version = protocol_version;
      from = address g d.sender;
      from_public_key = c.to_base64 d.sender.public_key;
      from_encryption_key = c.to_base64 (encryption_public_key p c d.sender);
      to = recipient;
      timestamp = now;
      content = d.content;
      extra = [];
    }

    -- The inner envelope is signed by the sender, encrypted, and put into an outer one, whose time is
    -- at most five minutes off.
    unfoldable pub seal_inner : Chance → Identity → Inner → Text → Bytes → SealedEnvelope
    unfolding inner_hash sign encrypt_for_recipient generate_routing_token
    seal_inner r sender n recipient key = record {
      version = protocol_version;
      kind = codes "sealed";
      routing_token = generate_routing_token recipient;
      timestamp = r.later + r.shift - 300000;
      payload =
          encrypt_for_recipient r.salt
            (c.utf8 (f.signed_text n (c.to_base64 (sign g sender (inner_hash n))))) key;
      padding = c.to_base64 r.padding;
    }

    unfoldable pub build_to : Chance → SealedDraft → Option (Text × Bytes) → Result SealedEnvelope
    unfolding inner_of seal_inner
    build_to r d none = failed recipient_required
    build_to r d (some ([], key)) = failed recipient_required
    build_to r d (some (u ∷ us, key)) =
        ok (seal_inner r d.sender (inner_of d (u ∷ us) r.now) (u ∷ us) key)

    unfoldable pub build : Chance → SealedDraft → Result SealedEnvelope
    unfolding build_to
    build r d = build_to r d d.recipient

    abbrev pub opened : Inner → Opened
    opened n = record {
      from = n.from;
      to = n.to;
      content = n.content;
      attachments = or_empty n.content.attachments;
      timestamp = n.timestamp;
      verified = true;
    }

    unfoldable pub verify_inner : Identity → Option (Inner × Text) → Result Opened
    unfolding inner_hash address
    verify_inner i none = failed exception
    verify_inner i (some (n, signature)) =
        if not (holds (text_discrete n.to (address g i)))
        then failed not_addressed
        else if g.verify (c.from_base64 signature) (inner_hash n) (c.from_base64 n.from_public_key)
        then ok (opened n)
        else failed invalid_signature

    abbrev pub read_inner : Identity → Option Bytes → Result Opened
    read_inner i none = failed exception
    read_inner i (some bytes) = verify_inner i (f.signed_of (c.from_utf8 bytes))

    unfoldable pub parse : Identity → SealedEnvelope → Result Opened
    unfolding verify_inner decrypt_payload
    parse i e =
        if not (holds (text_discrete e.kind (codes "sealed")))
        then failed not_sealed
        else read_inner i (decrypt_payload i e.payload)

    unfoldable pub is_for_me : Identity → SealedEnvelope → Bool
    unfolding generate_routing_token address
    is_for_me i e = holds (text_discrete e.routing_token (generate_routing_token (address g i)))
