-- ===== src/Crypto/Identity.antt =====
-- src/crypto/identity.js and src/crypto/wallet-identity.js. The cached address and keys are computed
-- anew; `none` is an exception. The database of identities has two kinds of values.
use Prim.Native.Nat.{bit_and, bit_or}
use chainmail_protocol.Base.{
  ℕ, zero, suc, ◌≡◌, refl, ap, ◌∙◌, sym, Bool, true, false, List, [], ◌∷◌, ◌++◌, Option, none, some,
  if◌then◌else◌, ◌==◌, Text, Bytes, codes, starts_with, starts_with-append, drop, take, length,
  holds, text_discrete, drop-length-append,
}
use chainmail_protocol.Base.Database.{Db}
use chainmail_protocol.Crypto.{Primitives, Encodings, Signing, SigningLaws}
pub mod Stored

pub record Identity : Type 0 where
  pub private_key : Bytes
  pub public_key : Bytes

pub record WalletIdentity : Type 0 where
  pub identity : Identity
  pub wallet_address : Text

-- What is kept of an identity, and the other kind of value: the name of the default one.
pub data Value : Type 0 where
  identity_json : Text → Text → Text → Value
  default_name : Text → Value

abbrev pub address_prefix : Text
address_prefix = codes "dm1"

-- An assignment to an index that does not exist changes nothing.
unfoldable pub change_at : ℕ → (ℕ → ℕ) → Bytes → Bytes
change_at i f [] = []
change_at zero f (b ∷ bs) = f b ∷ bs
change_at (suc i) f (b ∷ bs) = b ∷ change_at i f bs

unfoldable pub clamp : Bytes → Bytes
unfolding change_at
clamp hash = take 32 (
    change_at 31 (λ b. bit_or b 64)
      (change_at 31 (λ b. bit_and b 127) (change_at 0 (λ b. bit_and b 248) hash)))

module _ (g : Signing) where
  unfoldable pub from_private_key : Bytes → Identity
  from_private_key private_key = record {
    private_key = private_key;
    public_key = g.get_public_key private_key;
  }

  unfoldable pub address : Identity → Text
  address i = address_prefix ++ drop 1 (g.base58_encode i.public_key)

  unfoldable pub address_to_public_key : Text → Option Bytes
  address_to_public_key a =
      if starts_with a address_prefix then g.base58_decode (codes "z" ++ drop 3 a) else none

  unfoldable pub sign : Identity → Bytes → Bytes
  sign i message = g.sign message i.private_key

  -- An address names its public key.
  pub address_to_public_key-address :
      (laws : SigningLaws g) (i : Identity) → address_to_public_key (address i) ≡ some i.public_key
  unfolding address_to_public_key address
  address_to_public_key-address laws i =
      rw (starts_with-append address_prefix (drop 1 (g.base58_encode i.public_key))) (
        ap g.base58_decode (sym (laws.base58_encode-prefix i.public_key))
        ∙ laws.base58_decode-base58_encode i.public_key)

module _ (p : Primitives) (c : Encodings) where
  unfoldable pub encryption_private_key : Identity → Bytes
  unfolding clamp
  encryption_private_key i = clamp (c.sha256 i.private_key)

  unfoldable pub encryption_public_key : Identity → Bytes
  unfolding encryption_private_key
  encryption_public_key i = p.get_public_key (encryption_private_key i)

  -- `bytes` are those of the wallet's signature.
  unfoldable pub from_signature : Signing → Bytes → Text → WalletIdentity
  unfolding from_private_key
  from_signature g bytes wallet = record {
    identity = from_private_key g (
        p.hkdf bytes (some (c.utf8 (codes "dmail-identity-v1")))
          (c.utf8 (codes "ed25519-private-key")) 32);
    wallet_address = wallet;
  }

  -- `get_bytes` reads a signature, and `none` is an exception, which the source catches.
  abbrev pub owns : Signing → Text → Text → Option Bytes → Bool
  owns g wallet dmail none = false
  owns g wallet dmail (some bytes) =
      holds (text_discrete (address g (from_signature g bytes wallet).identity) dmail)

  unfoldable pub verify_wallet_ownership :
      Signing → (Text → Option Bytes) → Text → Text → Text → Bool
  unfolding from_signature address
  verify_wallet_ownership g get_bytes wallet signature dmail =
      owns g wallet dmail (get_bytes signature)

abbrev pub identity_key : Text → Text
identity_key name = codes "identity:" ++ name

abbrev pub names_identity : Text → Value → List (Text × Text) → List (Text × Text)
names_identity k (identity_json private public a) rest = (drop 9 k, a) ∷ rest
names_identity k (default_name n) rest = (drop 9 k, []) ∷ rest

unfoldable pub list_entries : List (Text × Value) → List (Text × Text)
list_entries [] = []
list_entries ((k, v) ∷ es) =
    let rest = list_entries es in
    if starts_with k (codes "identity:") then names_identity k v rest else rest

module _ (g : Signing) (c : Encodings) where
  unfoldable pub to_json : Identity → Value
  unfolding address
  to_json i = identity_json (c.hex i.private_key) (c.hex i.public_key) (address g i)

  unfoldable pub from_json : Value → Option Identity
  from_json (identity_json private public a) =
      some (record { private_key = c.from_hex private; public_key = c.from_hex public })
  from_json (default_name n) = none

  module _ (db : Db Value) where
    unfoldable pub list_identities : db.Store → List (Text × Text)
    unfolding list_entries
    list_identities s = list_entries (db.iterator s)

    -- The identity is written first, and then the identities are counted.
    unfoldable pub save_identity : Text → Identity → db.Store → db.Store
    unfolding to_json list_identities
    save_identity name i s =
        let s' = db.put (identity_key name) (to_json i) s in
        if length (list_identities s') == 0
        then db.put (codes "default") (default_name name) s'
        else s'

    abbrev pub read_identity : Option Value → Option Identity
    read_identity none = none
    read_identity (some v) = from_json v

    unfoldable pub get_identity : Text → db.Store → Option Identity
    unfolding from_json
    get_identity name s = read_identity (db.get (identity_key name) s)

    unfoldable pub set_default : Text → db.Store → db.Store
    set_default name s = db.put (codes "default") (default_name name) s

    abbrev pub identity_named : Option Value → db.Store → Option Identity
    identity_named (some (default_name n)) s = get_identity n s
    identity_named _ s = none

    unfoldable pub get_default_identity : db.Store → Option Identity
    unfolding get_identity
    get_default_identity s = identity_named (db.get (codes "default") s) s
