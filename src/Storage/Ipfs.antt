-- ===== src/Storage/Ipfs.antt =====
-- src/storage/ipfs.js: uploading to IPFS, downloading from its gateways, and encrypted attachments.
-- What the services answer is the record `Web`, `none` where a request fails; the choice of a gateway in
-- the options is not used by the source.
pub mod Attachments
use chainmail_protocol.Base.{
  ℕ, ◌+◌, Bool, true, false, List, [], ◌∷◌, ◌++◌, Option, none, some, if◌then◌else◌, Text, Bytes,
  codes, take, drop, length, is_some,
}
use chainmail_protocol.Crypto.{Primitives, Encodings}
use chainmail_protocol.Crypto.Encryption.{Salt, Encrypted, seal_for, open_with}

-- The options that name a service.
pub record Client : Type 0 where
  pub local_node : Bool
  pub pinata : Bool
  pub web3_storage : Bool

pub record Web : Type 0 where
  pub add_local : Bytes → Option Text
  pub add_pinata : Bytes → Option Text
  pub add_web3_storage : Bytes → Option Text
  pub gateway : Text → Text → Option Bytes
  pub cat_local : Text → Option Bytes

pub record Uploaded : Type 0 where
  pub cid : Text
  pub uploaded : Bool

pub record Attachment : Type 0 where
  pub cid : Text
  pub filename : Text
  pub mime_type : Text
  pub size : ℕ
  pub encrypted_size : ℕ
  pub uploaded : Bool

pub record Download : Type 0 where
  pub data_bytes : Bytes
  pub filename : Text
  pub mime_type : Text

abbrev pub gateways : List Text
gateways =
    codes "https://ipfs.io/ipfs/"
    ∷ codes "https://dweb.link/ipfs/"
    ∷ codes "https://cloudflare-ipfs.com/ipfs/"
    ∷ codes "https://gateway.pinata.cloud/ipfs/"
    ∷ []

abbrev pub info : Text
info = codes "dmail-attachment-v1"

-- `none` is an exception.
abbrev pub added : Option Text → Option Uploaded
added none = none
added (some cid) = some (record { cid = cid; uploaded = true })

abbrev pub first_of : Option Bytes → Option Bytes → Option Bytes
first_of none rest = rest
first_of (some b) rest = some b

-- The first gateway that answers.
unfoldable pub try_gateways : List Text → Web → Text → Option Bytes
try_gateways [] w cid = none
try_gateways (g ∷ gs) w cid = first_of (w.gateway g cid) (try_gateways gs w cid)

abbrev pub from_local : Bool → Web → Text → Option Bytes
from_local true w cid = w.cat_local cid
from_local false w cid = none

unfoldable pub download : Client → Web → Text → Option Bytes
unfolding try_gateways
download client w cid = first_of (try_gateways gateways w cid) (from_local client.local_node w cid)

-- `head` is whether a gateway answers for a CID.
unfoldable pub is_available : List Text → (Text → Text → Bool) → Text → Bool
is_available [] head cid = false
is_available (g ∷ gs) head cid =
    let rest = is_available gs head cid in if head g cid then true else rest

-- A key has 32 bytes, and a nonce 12.
abbrev pub package_of : Encrypted → Bytes
package_of e = e.ephemeral_public_key ++ (e.nonce ++ e.ciphertext)

abbrev pub parts_of : Bytes → Encrypted
parts_of b = record {
  ephemeral_public_key = take 32 b;
  nonce = take 12 (drop 32 b);
  ciphertext = drop 12 (drop 32 b);
}

-- `cid_of` makes a CID of a hash.
module _ (c : Encodings) (cid_of : Bytes → Text) where
  unfoldable pub compute_cid : Bytes → Text
  compute_cid bytes = cid_of (c.sha256 bytes)

  abbrev pub upload_with : Bool → Bool → Bool → Web → Bytes → Option Uploaded
  upload_with true pinata web3 w bytes = added (w.add_local bytes)
  upload_with false true web3 w bytes = added (w.add_pinata bytes)
  upload_with false false true w bytes = added (w.add_web3_storage bytes)
  upload_with false false false w bytes =
      some (record { cid = compute_cid bytes; uploaded = false })

  unfoldable pub upload : Client → Web → Bytes → Option Uploaded
  unfolding compute_cid
  upload client w bytes = upload_with client.local_node client.pinata client.web3_storage w bytes

  module _ (p : Primitives) where
    unfoldable pub encrypted_package : Salt → Bytes → Bytes → Bytes
    unfolding seal_for
    encrypted_package salt bytes key = package_of (seal_for p (c.utf8 info) salt bytes key)

    abbrev pub attached : Text → Text → Bytes → Bytes → Option Uploaded → Option Attachment
    attached filename mime_type bytes packed none = none
    attached filename mime_type bytes packed (some u) = some (record {
      cid = u.cid;
      filename = filename;
      mime_type = mime_type;
      size = length bytes;
      encrypted_size = length packed;
      uploaded = u.uploaded;
    })

    unfoldable pub upload_attachment :
        Client → Web → Salt → Bytes → Text → Bytes → Text → Option Attachment
    unfolding encrypted_package upload
    upload_attachment client w salt bytes filename key mime_type =
        let packed = encrypted_package salt bytes key in
        attached filename mime_type bytes packed (upload client w packed)

    abbrev pub decrypted : Attachment → Option Bytes → Option Download
    decrypted a none = none
    decrypted a (some b) =
        some (record { data_bytes = b; filename = a.filename; mime_type = a.mime_type })

    abbrev pub unpacked : Attachment → Bytes → Option Bytes → Option Download
    unpacked a private_key none = none
    unpacked a private_key (some b) =
        decrypted a (open_with p (c.utf8 info) (parts_of b) private_key)

    unfoldable pub download_attachment : Client → Web → Attachment → Bytes → Option Download
    unfolding open_with download
    download_attachment client w a private_key = unpacked a private_key (download client w a.cid)
