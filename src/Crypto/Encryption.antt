-- ===== src/Crypto/Encryption.antt =====
-- src/crypto/encryption.js. A random private key and a nonce are the argument `Salt`.
use chainmail_protocol.Base.{◌≡◌, refl, [], Option, none, some, Bytes, Text, codes}
use chainmail_protocol.Crypto.{Primitives, Laws, Encodings, EncodingLaws}

pub record Salt : Type 0 where
  pub secret : Bytes
  pub nonce : Bytes

pub record Encrypted : Type 0 where
  pub ephemeral_public_key : Bytes
  pub nonce : Bytes
  pub ciphertext : Bytes

-- The same as base64.
pub record Serialized : Type 0 where
  pub ephemeral_public_key : Text
  pub nonce : Text
  pub ciphertext : Text

module _ (p : Primitives) where
  -- `info` is the label of the key derivation, of which src/protocol/sealed-envelope.js has its own.
  unfoldable pub seal_for : Bytes → Salt → Bytes → Bytes → Encrypted
  seal_for info salt plaintext recipient = record {
    ephemeral_public_key = p.get_public_key salt.secret;
    nonce = salt.nonce;
    ciphertext =
        p.encrypt (p.hkdf (p.get_shared_secret salt.secret recipient) none info 32) salt.nonce []
          plaintext;
  }

  unfoldable pub open_with : Bytes → Encrypted → Bytes → Option Bytes
  open_with info e private_key =
      p.decrypt (p.hkdf (p.get_shared_secret private_key e.ephemeral_public_key) none info 32)
        e.nonce [] e.ciphertext

  unfoldable pub encrypt_message : Salt → Bytes → Bytes → Encrypted
  unfolding seal_for
  encrypt_message salt plaintext recipient =
      seal_for (codes "dmail-encryption-v1") salt plaintext recipient

  unfoldable pub decrypt_message : Encrypted → Bytes → Option Bytes
  unfolding open_with
  decrypt_message e private_key = open_with (codes "dmail-encryption-v1") e private_key

  pub open_with-seal_for :
      (laws : Laws p) (info : Bytes) (salt : Salt) (m key : Bytes)
      → open_with info (seal_for info salt m (p.get_public_key key)) key ≡ some m
  unfolding open_with seal_for
  open_with-seal_for laws info salt m key =
      rw (laws.shared_comm key salt.secret, open_with, seal_for)
        (laws.decrypt-encrypt
          (p.hkdf (p.get_shared_secret salt.secret (p.get_public_key key)) none info 32) salt.nonce
          [] m)

unfoldable pub serialize_encrypted : Encodings → Encrypted → Serialized
serialize_encrypted c e = record {
  ephemeral_public_key = c.to_base64 e.ephemeral_public_key;
  nonce = c.to_base64 e.nonce;
  ciphertext = c.to_base64 e.ciphertext;
}

unfoldable pub deserialize_encrypted : Encodings → Serialized → Encrypted
deserialize_encrypted c s = record {
  ephemeral_public_key = c.from_base64 s.ephemeral_public_key;
  nonce = c.from_base64 s.nonce;
  ciphertext = c.from_base64 s.ciphertext;
}

pub deserialize_encrypted-serialize_encrypted :
    (c : Encodings) (laws : EncodingLaws c) (e : Encrypted)
    → deserialize_encrypted c (serialize_encrypted c e) ≡ e
unfolding deserialize_encrypted serialize_encrypted
deserialize_encrypted-serialize_encrypted c laws e =
    rw (laws.from_base64-to_base64 e.ephemeral_public_key)
      (rw (laws.from_base64-to_base64 e.nonce) (rw (laws.from_base64-to_base64 e.ciphertext) refl))

-- Whoever holds the private key reads what was sealed for the public one and written as base64.
pub open_with-serialized :
    (p : Primitives) (c : Encodings) (laws : Laws p) (codec : EncodingLaws c) (info : Bytes)
    (salt : Salt) (m key : Bytes)
    → open_with p info
        (deserialize_encrypted c
          (serialize_encrypted c (seal_for p info salt m (p.get_public_key key))))
        key
      ≡ some m
open_with-serialized p c laws codec info salt m key =
    rw
      (deserialize_encrypted-serialize_encrypted c codec
        (seal_for p info salt m (p.get_public_key key)))
      (open_with-seal_for p laws info salt m key)

pub decrypt_message-serialized :
    (p : Primitives) (c : Encodings) (laws : Laws p) (codec : EncodingLaws c) (salt : Salt)
    (m key : Bytes)
    → decrypt_message p
        (deserialize_encrypted c
          (serialize_encrypted c (encrypt_message p salt m (p.get_public_key key))))
        key
      ≡ some m
unfolding decrypt_message encrypt_message
decrypt_message-serialized p c laws codec =
    open_with-serialized p c laws codec (codes "dmail-encryption-v1")
