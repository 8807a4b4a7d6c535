-- ===== src/Tests/Attachments.antt =====
-- src/storage/ipfs.js at concrete inputs.
use chainmail_protocol.Base.{
  ◌≡◌, refl, sym, inl, true, false, [], ◌∷◌, some, none, Bytes, Text, codes,
}
use chainmail_protocol.Base.Database.{some-injective, none-ne-some}
use chainmail_protocol.Crypto.Encryption.{Salt}
use chainmail_protocol.Storage.Ipfs.{
  Client, Web, Attachment, encrypted_package, upload, upload_attachment, download_attachment,
}
use chainmail_protocol.Storage.Ipfs.Attachments.{
  IsServed, download_attachment-sealed, download_attachment-upload,
}
use chainmail_protocol.Tests.Toy.{toy, toy_laws, plain}

abbrev salt : Salt
salt = record {
  secret =
      1 ∷ 2 ∷ 3 ∷ 4 ∷ 5 ∷ 6 ∷ 7 ∷ 8 ∷ 9 ∷ 10 ∷ 11 ∷ 12 ∷ 13 ∷ 14 ∷ 15 ∷ 16 ∷ 17 ∷ 18 ∷ 19 ∷ 20 ∷ 21
      ∷ 22 ∷ 23 ∷ 24 ∷ 25 ∷ 26 ∷ 27 ∷ 28 ∷ 29 ∷ 30 ∷ 31 ∷ 32 ∷ [];
  nonce = 1 ∷ 2 ∷ 3 ∷ 4 ∷ 5 ∷ 6 ∷ 7 ∷ 8 ∷ 9 ∷ 10 ∷ 11 ∷ 12 ∷ [];
}

abbrev key : Bytes
key = 7 ∷ []

abbrev cid_of : Bytes → Text
cid_of hash = codes "cid"

abbrev client : Client
client = record { local_node = false; pinata = true; web3_storage = false }

-- Everybody answers with these bytes.
abbrev serving : Bytes → Web
serving bytes = record {
  add_local = λ b. none;
  add_pinata = λ b. some (codes "pin");
  add_web3_storage = λ b. none;
  gateway = λ g cid. some bytes;
  cat_local = λ cid. none;
}

abbrev packed : Bytes
packed = encrypted_package plain cid_of toy salt (codes "data") key

abbrev note : Attachment
note = record {
  cid = codes "pin";
  filename = codes "note";
  mime_type = codes "text/plain";
  size = 4;
  encrypted_size = 99;
  uploaded = true;
}

served : IsServed client (serving packed) (codes "pin") packed
served = (
  (λ g d e. sym (some-injective e)),
  (λ d e. absurd (none-ne-some d e)),
  inl (codes "https://ipfs.io/ipfs/", packed, inl refl, refl),
)

uploads :
    upload_attachment plain cid_of toy client
      (serving [])
      salt
      (codes "data")
      (codes "note")
      key
      (codes "text/plain")
    ≡ some note
unfolding upload_attachment upload encrypted_package
uploads = refl

download_attachment-upload_example :
    download_attachment plain cid_of toy client (serving packed) note key
    ≡ some (record {
      data_bytes = codes "data";
      filename = codes "note";
      mime_type = codes "text/plain";
    })
download_attachment-upload_example =
    download_attachment-upload plain cid_of toy toy_laws client client (serving []) (serving packed)
      salt (codes "data") key (codes "note") (codes "text/plain") note refl refl uploads served

download_attachment-sealed_example :
    download_attachment plain cid_of toy client (serving packed) note key
    ≡ some (record {
      data_bytes = codes "data";
      filename = codes "note";
      mime_type = codes "text/plain";
    })
download_attachment-sealed_example =
    download_attachment-sealed plain cid_of toy toy_laws client (serving packed) note salt
      (codes "data") key refl refl served
