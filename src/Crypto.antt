-- ===== src/Crypto.antt =====
-- The cryptography of src/crypto. The functions of the libraries that it calls are the parameter
-- `Primitives`; `Laws` is what the code relies on.
pub mod DoubleRatchet
pub mod ProofOfWork
pub mod Encryption
pub mod Identity
pub mod SecureStorage
use chainmail_protocol.Base.{ℕ, ◌≡◌, Bool, true, List, ◌∷◌, Option, some, Bytes, Text, drop}

-- `none` is the `undefined` salt of `hkdf`, and a ciphertext that does not authenticate.
pub record Primitives : Type 0 where
  pub get_public_key : Bytes → Bytes
  pub get_shared_secret : Bytes → Bytes → Bytes
  pub hkdf : Bytes → Option Bytes → Bytes → ℕ → Bytes
  pub encrypt : Bytes → Bytes → Bytes → Bytes → Bytes
  pub decrypt : Bytes → Bytes → Bytes → Bytes → Option Bytes

-- X25519 agrees on a secret from either side; ChaCha20-Poly1305 opens what it sealed under the same
-- key, nonce and associated data.
pub record Laws (p : Primitives) : Type 0 where
  pub shared_comm :
      (a b : Bytes)
      → p.get_shared_secret a (p.get_public_key b) ≡ p.get_shared_secret b (p.get_public_key a)
  pub decrypt-encrypt :
      (key nonce ad m : Bytes) → p.decrypt key nonce ad (p.encrypt key nonce ad m) ≡ some m

-- SHA-256, TextEncoder, the encodings of Buffer, and the decimal digits of a number.
pub record Encodings : Type 0 where
  pub sha256 : Bytes → Bytes
  pub hex : Bytes → Text
  pub from_hex : Text → Bytes
  pub to_base64 : Bytes → Text
  pub from_base64 : Text → Bytes
  pub utf8 : Text → Bytes
  pub from_utf8 : Bytes → Text
  pub digits : ℕ → Text

-- UTF-8, base64 and hexadecimal are read back as they were written.
pub record EncodingLaws (c : Encodings) : Type 0 where
  pub from_hex-hex : (b : Bytes) → c.from_hex (c.hex b) ≡ b
  pub from_base64-to_base64 : (b : Bytes) → c.from_base64 (c.to_base64 b) ≡ b
  pub from_utf8-utf8 : (t : Text) → c.from_utf8 (c.utf8 t) ≡ t

-- Ed25519, and base58 with the prefix `z` of its multibase.
pub record Signing : Type 0 where
  pub get_public_key : Bytes → Bytes
  pub sign : Bytes → Bytes → Bytes
  pub verify : Bytes → Bytes → Bytes → Bool
  pub base58_encode : Bytes → Text
  pub base58_decode : Text → Option Bytes

-- A signature is verified under the public key of its private key; base58 is read back as it was
-- written, and begins with the prefix.
pub record SigningLaws (g : Signing) : Type 0 where
  pub verify-sign : (m key : Bytes) → g.verify (g.sign m key) m (g.get_public_key key) ≡ true
  pub base58_decode-base58_encode : (b : Bytes) → g.base58_decode (g.base58_encode b) ≡ some b
  pub base58_encode-prefix : (b : Bytes) → g.base58_encode b ≡ b'z' ∷ drop 1 (g.base58_encode b)
