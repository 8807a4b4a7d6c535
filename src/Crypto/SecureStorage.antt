-- ===== src/Crypto/SecureStorage.antt =====
-- src/crypto/secure-storage.js. A nonce is an argument; a text is given as its bytes. A storage key is
-- an array that its caller shares: `memory` has the bytes of every array, and SecureKeyStore refers
-- to one by its number.
use Prim.Native.Nat.{bit_or, bit_xor}
use chainmail_protocol.Base.{
  ℕ, Bool, true, false, List, [], ◌∷◌, ◌++◌, Option, none, some, if◌then◌else◌, ◌==◌, Text, Bytes,
  codes, take, drop, length, starts_with,
}
use chainmail_protocol.Base.Database.{Db}
use chainmail_protocol.Crypto.{Primitives, Encodings}
pub mod Compare
pub mod Keys

-- `exception` is one of a library.
pub data Result (A : Type 0) : Type 0 where
  done : A → Result A
  store_locked : Result A
  exception : Result A

-- The numbers of scrypt: its cost, its block size, and its parallelism.
abbrev pub scrypt_numbers : ℕ × ℕ × ℕ
scrypt_numbers = (131072, 8, 1)

abbrev pub key_length : ℕ
key_length = 32

unfoldable pub derive_key_from_password :
    Encodings → (Bytes → Bytes → ℕ × ℕ × ℕ → ℕ → Bytes) → Text → Bytes → Bytes
derive_key_from_password c scrypt password salt =
    scrypt (c.utf8 password) salt scrypt_numbers key_length

unfoldable pub mix : ℕ → Bytes → Bytes → ℕ
mix result (x ∷ xs) (y ∷ ys) = mix (bit_or result (bit_xor x y)) xs ys
mix result [] ys = result
mix result (x ∷ xs) [] = result

unfoldable pub secure_compare : Bytes → Bytes → Bool
unfolding mix
secure_compare a b = if length a == length b then mix 0 a b == 0 else false

module _ (p : Primitives) where
  unfoldable pub derive_key_from_signature : Bytes → Bytes
  derive_key_from_signature signature =
      p.hkdf signature none (codes "dmail-storage-key-v1") key_length

  -- The nonce stands before the ciphertext.
  unfoldable pub encrypt_data : Bytes → Bytes → Bytes → Bytes
  encrypt_data nonce data_bytes key = nonce ++ p.encrypt key nonce [] data_bytes

  unfoldable pub decrypt_data : Bytes → Bytes → Option Bytes
  decrypt_data encrypted key = p.decrypt key (take 12 encrypted) [] (drop 12 encrypted)

pub record KeyStore : Type 0 where
  pub memory : ℕ → Bytes
  pub storage_key : Option ℕ
  pub unlocked : Bool

unfoldable pub new_store : Option ℕ → (ℕ → Bytes) → KeyStore
new_store key memory = record { memory = memory; storage_key = key; unlocked = false }

abbrev pub bytes_at : Option ℕ → (ℕ → Bytes) → Option Bytes
bytes_at none memory = none
bytes_at (some r) memory = some (memory r)

-- The bytes of `storageKey` as they are now.
abbrev pub key_of : KeyStore → Option Bytes
key_of k = bytes_at k.storage_key k.memory

unfoldable pub unlock : ℕ → KeyStore → KeyStore
unlock key k = record k { storage_key = some key; unlocked = true }

unfoldable pub write_array : ℕ → Bytes → (ℕ → Bytes) → ℕ → Bytes
write_array r bs memory i = if i == r then bs else memory i

unfoldable pub fill_zero : Bytes → Bytes
fill_zero [] = []
fill_zero (b ∷ bs) = 0 ∷ fill_zero bs

-- The array of the storage key is overwritten with zeros.
abbrev pub wipe : Option ℕ → (ℕ → Bytes) → ℕ → Bytes
wipe none memory = memory
wipe (some r) memory = write_array r (fill_zero (memory r)) memory

unfoldable pub lock : KeyStore → KeyStore
unfolding write_array fill_zero
lock k = record { memory = wipe k.storage_key k.memory; storage_key = none; unlocked = false }

abbrev pub key_name : Text → Text
key_name name = codes "key:" ++ name

unfoldable pub names : List (Text × Bytes) → List Text
names [] = []
names ((k, v) ∷ es) =
    let rest = names es in if starts_with k (codes "key:") then drop 4 k ∷ rest else rest

module _ (p : Primitives) (db : Db Bytes) where
  abbrev pub put_key : Bytes → Text → Bytes → Option Bytes → db.Store → Result db.Store
  put_key nonce name private_key none s = exception
  put_key nonce name private_key (some key) s =
      done (db.put (key_name name) (encrypt_data p nonce private_key key) s)

  unfoldable pub store_private_key : Bytes → Text → Bytes → KeyStore → db.Store → Result db.Store
  unfolding encrypt_data
  store_private_key nonce name private_key k s =
      if k.unlocked then put_key nonce name private_key (key_of k) s else store_locked

  abbrev pub opened : Option Bytes → Result (Option Bytes)
  opened none = exception
  opened (some private_key) = done (some private_key)

  -- A missing entry is answered with `null`.
  abbrev pub open_key : Option Bytes → Option Bytes → Result (Option Bytes)
  open_key none key = done none
  open_key (some encrypted) none = exception
  open_key (some encrypted) (some key) = opened (decrypt_data p encrypted key)

  unfoldable pub get_private_key : Text → KeyStore → db.Store → Result (Option Bytes)
  unfolding decrypt_data
  get_private_key name k s =
      if k.unlocked then open_key (db.get (key_name name) s) (key_of k) else store_locked

  unfoldable pub delete_private_key : Text → db.Store → db.Store
  delete_private_key name s = db.del (key_name name) s

  unfoldable pub list_keys : db.Store → List Text
  unfolding names
  list_keys s = names (db.iterator s)
