-- ===== src/Protocol/Message.antt =====
-- src/protocol/message.js. JSON is the parameter `Format`; the clock and random values are arguments;
-- a missing text of an envelope counts as an empty one.
use chainmail_protocol.Base.{
  ℕ, Bool, true, false, List, [], ◌∷◌, ◌++◌, Option, none, some, if◌then◌else◌, not, holds,
  text_discrete, Text, Bytes, codes, starts_with, take,
}
use chainmail_protocol.Crypto.{Primitives, Encodings, Signing}
use chainmail_protocol.Crypto.Encryption.{
  Salt, Serialized, encrypt_message, decrypt_message, serialize_encrypted, deserialize_encrypted,
}
use chainmail_protocol.Crypto.Identity.{
  Identity, address, address_to_public_key, sign, encryption_private_key, encryption_public_key,
}
use chainmail_protocol.Crypto.ProofOfWork.{
  Proof, default_difficulty, compute_proof_of_work, verify_proof_of_work,
}
use chainmail_protocol.Protocol.{
  Result, ok, failed, recipient_required, key_required, unsupported_version, not_addressed,
  invalid_pow, invalid_signature, exception,
}
pub mod Exchange

abbrev pub protocol_version : Text
protocol_version = codes "1.0.0"

-- What is encrypted; `none` is `null` or missing, and an attachment is its JSON.
pub record Content : Type 0 where
  pub subject : Option Text
  pub body : Option Text
  pub attachments : Option (List Text)
  pub reply_to : Option Text
  pub thread_id : Option Text

-- The message of a MessageBuilder.
pub record Draft : Type 0 where
  pub sender : Identity
  pub recipient : Option Text
  pub content : Content
  pub timestamp : ℕ

-- The part of an envelope that is hashed.
pub record Signed : Type 0 where
  pub version : Text
  pub from : Text
  pub to : Text
  pub timestamp : ℕ
  pub encrypted : Serialized

pub record Envelope : Type 0 where
  pub signed : Signed
  pub from_encryption_key : Text
  pub signature : Text
  pub pow : Proof

pub record Received : Type 0 where
  pub id : Text
  pub from : Text
  pub to : Text
  pub timestamp : ℕ
  pub subject : Option Text
  pub body : Option Text
  pub attachments : List Text
  pub reply_to : Option Text
  pub thread_id : Option Text
  pub verified : Bool

-- JSON.stringify of what is hashed and of the content, and JSON.parse of the content.
pub record Format : Type 0 where
  pub signed_text : Signed → Text
  pub content_text : Content → Text
  pub content_of : Text → Option Content

abbrev pub empty_content : Content
empty_content = record {
  subject = some [];
  body = some [];
  attachments = some [];
  reply_to = none;
  thread_id = none;
}

unfoldable pub new_draft : Identity → ℕ → Draft
new_draft i now = record { sender = i; recipient = none; content = empty_content; timestamp = now }

unfoldable pub to : Text → Draft → Draft
to a d = record d { recipient = some a }

unfoldable pub subject : Text → Draft → Draft
subject t d = record d { content = record (d.content) { subject = some t } }

unfoldable pub body : Text → Draft → Draft
body t d = record d { content = record (d.content) { body = some t } }

abbrev pub or_empty : Option (List Text) → List Text
or_empty none = []
or_empty (some ts) = ts

abbrev pub attached : Text → Content → Content
attached x t = record t { attachments = some (or_empty t.attachments ++ x ∷ []) }

unfoldable pub attachment : Text → Draft → Draft
attachment x d = record d { content = attached x d.content }

unfoldable pub reply_to : Text → Draft → Draft
reply_to m d = record d { content = record (d.content) { reply_to = some m } }

unfoldable pub thread : Text → Draft → Draft
thread t d = record d { content = record (d.content) { thread_id = some t } }

module _ (p : Primitives) (c : Encodings) (g : Signing) (f : Format) where
  unfoldable pub hash_envelope : Signed → Bytes
  hash_envelope s = c.sha256 (c.utf8 (f.signed_text s))

  unfoldable pub get_message_id : Envelope → Text
  unfolding hash_envelope
  get_message_id e = take 32 (c.hex (hash_envelope e.signed))

  -- The unsigned envelope; the recipient's key is that of an X25519 pair.
  unfoldable pub sealed : Salt → Draft → Text → Bytes → Signed
  unfolding encrypt_message serialize_encrypted address
  sealed salt d recipient key = record {
    version = protocol_version;
    from = address g d.sender;
    to = recipient;
    timestamp = d.timestamp;
    encrypted =
        serialize_encrypted c (encrypt_message p salt (c.utf8 (f.content_text d.content)) key);
  }

  unfoldable pub stamped : Identity → Signed → Proof → Envelope
  unfolding hash_envelope sign encryption_public_key
  stamped i s pow = record {
    signed = s;
    from_encryption_key = c.to_base64 (encryption_public_key p c i);
    signature = c.to_base64 (sign g i (hash_envelope s));
    pow = pow;
  }

  abbrev pub finish : Identity → Signed → Option Proof → Result Envelope
  finish i s none = failed exception
  finish i s (some pow) = ok (stamped i s pow)

  -- Signed, and with a proof of work.
  unfoldable pub stamp : Identity → Signed → Result Envelope
  unfolding stamped
  stamp i s = finish i s (compute_proof_of_work c (c.hex (hash_envelope s)) default_difficulty)

  abbrev pub key_or : Option Bytes → Text → Option Bytes
  key_or none recipient = address_to_public_key g recipient
  key_or (some key) recipient = some key

  unfoldable pub build_with : Salt → Draft → Text → Option Bytes → Result Envelope
  unfolding sealed
  build_with salt d recipient none = failed key_required
  build_with salt d recipient (some key) = stamp d.sender (sealed salt d recipient key)

  unfoldable pub build_to : Salt → Draft → Option Bytes → Option Text → Result Envelope
  unfolding build_with address_to_public_key
  build_to salt d key none = failed recipient_required
  build_to salt d key (some []) = failed recipient_required
  build_to salt d key (some (u ∷ us)) = build_with salt d (u ∷ us) (key_or key (u ∷ us))

  unfoldable pub build : Salt → Draft → Option Bytes → Result Envelope
  unfolding build_to
  build salt d key = build_to salt d key d.recipient

  unfoldable pub received : Envelope → Content → Received
  unfolding get_message_id
  received e t = record {
    id = get_message_id e;
    from = e.signed.from;
    to = e.signed.to;
    timestamp = e.signed.timestamp;
    subject = t.subject;
    body = t.body;
    attachments = or_empty t.attachments;
    reply_to = t.reply_to;
    thread_id = t.thread_id;
    verified = true;
  }

  abbrev pub read_content : Envelope → Option Content → Result Received
  read_content e none = failed exception
  read_content e (some t) = ok (received e t)

  abbrev pub read_plaintext : Envelope → Option Bytes → Result Received
  read_plaintext e none = failed exception
  read_plaintext e (some bytes) = read_content e (f.content_of (c.from_utf8 bytes))

  -- What follows the sender's public key.
  unfoldable pub open_signed : Identity → Envelope → Option Bytes → Result Received
  unfolding received decrypt_message deserialize_encrypted encryption_private_key hash_envelope
  open_signed i e none = failed exception
  open_signed i e (some key) =
      if g.verify (c.from_base64 e.signature) (hash_envelope e.signed) key
      then read_plaintext e (
          decrypt_message p (deserialize_encrypted c e.signed.encrypted)
            (encryption_private_key p c i))
      else failed invalid_signature

  unfoldable pub parse : Identity → Envelope → Result Received
  unfolding open_signed address_to_public_key verify_proof_of_work hash_envelope address
  parse i e =
      if not (starts_with e.signed.version (codes "1."))
      then failed unsupported_version
      else if not (holds (text_discrete e.signed.to (address g i)))
      then failed not_addressed
      else if not (verify_proof_of_work c (c.hex (hash_envelope e.signed)) e.pow)
      then failed invalid_pow
      else open_signed i e (address_to_public_key g e.signed.from)
