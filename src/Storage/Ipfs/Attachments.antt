-- ===== src/Storage/Ipfs/Attachments.antt =====
-- src/storage/ipfs.js: what becomes of an attachment.
use chainmail_protocol.Base.{
  ◌≡◌, ◌≢◌, refl, ap, sym, ◌∙◌, ◌⊎◌, inl, inr, true, List, [], ◌∷◌, ◌++◌, none, some, Text, Bytes,
  take, drop, length, take-length-append, drop-length-append, Option-cases,
}
use chainmail_protocol.Base.Database.{some-injective, none-ne-some}
use chainmail_protocol.Base.Dict.{In}
use chainmail_protocol.Crypto.{Primitives, Laws, Encodings}
use chainmail_protocol.Crypto.Encryption.{Salt, Encrypted, seal_for, open_with, open_with-seal_for}
use chainmail_protocol.Storage.Ipfs.{
  Client, Web, Attachment, gateways, info, upload, first_of, try_gateways, from_local, download,
  package_of, parts_of, encrypted_package, attached, upload_attachment, decrypted, unpacked,
  download_attachment,
}

-- Whoever answers for the CID answers with these bytes, and someone does.
abbrev pub IsServed : Client → Web → Text → Bytes → Type 0
IsServed client w cid b =
    ((g : Text) (d : Bytes) → w.gateway g cid ≡ some d → d ≡ b)
    × ((d : Bytes) → w.cat_local cid ≡ some d → d ≡ b)
    × (((g : Text) × (d : Bytes) × In g gateways × (w.gateway g cid ≡ some d))
        ⊎ ((d : Bytes) × (client.local_node ≡ true) × (w.cat_local cid ≡ some d)))

-- The gateways answer with nothing, or with these bytes if one of them answers.
try_gateways-lem :
    (gs : List Text) (w : Web) (cid : Text) (b : Bytes)
    → ((g : Text) (d : Bytes) → w.gateway g cid ≡ some d → d ≡ b)
    → ((try_gateways gs w cid ≡ none)
        × ((g : Text) (d : Bytes) → In g gs → w.gateway g cid ≢ some d))
      ⊎ (try_gateways gs w cid ≡ some b)
unfolding try_gateways
try_gateways-lem [] w cid b h = inl (refl, λ g d i. absurd i)
try_gateways-lem (g ∷ gs) w cid b h = elim (Option-cases (w.gateway g cid)) [
  | inr (d, e) ↦ inr (rw e (ap some (h g d e)))
  | inl e ↦ elim (try_gateways-lem gs w cid b h) [
    | inr f ↦ inr (rw e f)
    | inl (f, none_there) ↦ inl (
      rw e f,
      λ k d i q. elim i [
        | inl x ↦ none-ne-some d (sym e ∙ ap (λ y. w.gateway y cid) (sym x) ∙ q)
        | inr j ↦ none_there k d j q
      ],
    )
  ]
]

download-IsServed :
    (client : Client) (w : Web) (cid : Text) (b : Bytes)
    → IsServed client w cid b
    → download client w cid ≡ some b
unfolding download
download-IsServed client w cid b (honest, honest_local, served) =
    elim (try_gateways-lem gateways w cid b honest) [
      | inr e ↦ ap (λ o. first_of o (from_local client.local_node w cid)) e
      | inl (e, nobody) ↦ elim served [
        | inl (g, d, i, q) ↦ absurd (nobody g d i q)
        | inr (d, l, q) ↦
            ap (λ o. first_of o (from_local client.local_node w cid)) e
            ∙ ap (λ l. from_local l w cid) l
            ∙ q
            ∙ ap some (honest_local d q)
      ]
    ]

module _ (c : Encodings) (cid_of : Bytes → Text) (p : Primitives) (laws : Laws p) where
  parts_of-package_of :
      (e : Encrypted)
      → length e.ephemeral_public_key ≡ 32
      → length e.nonce ≡ 12
      → parts_of (package_of e) ≡ e
  parts_of-package_of e k n =
      let rest : Bytes = e.nonce ++ e.ciphertext in
      let a : take 32 (e.ephemeral_public_key ++ rest) ≡ e.ephemeral_public_key =
        ap (λ m. take m (e.ephemeral_public_key ++ rest)) (sym k)
        ∙ take-length-append e.ephemeral_public_key rest in
      let b : drop 32 (e.ephemeral_public_key ++ rest) ≡ rest =
        ap (λ m. drop m (e.ephemeral_public_key ++ rest)) (sym k)
        ∙ drop-length-append e.ephemeral_public_key rest in
      let d : take 12 rest ≡ e.nonce =
        ap (λ m. take m rest) (sym n) ∙ take-length-append e.nonce e.ciphertext in
      let f : drop 12 rest ≡ e.ciphertext =
        ap (λ m. drop m rest) (sym n) ∙ drop-length-append e.nonce e.ciphertext in
      rw b (rw a (rw d (rw f refl)))

  -- A download that gives a package sealed for the key.
  unpacked-lem :
      (a : Attachment) (salt : Salt) (m key : Bytes)
      → length (p.get_public_key salt.secret) ≡ 32
      → length salt.nonce ≡ 12
      → unpacked c cid_of p a key
          (some (encrypted_package c cid_of p salt m (p.get_public_key key)))
        ≡ some (record { data_bytes = m; filename = a.filename; mime_type = a.mime_type })
  unfolding encrypted_package
  unpacked-lem a salt m key k n =
      ap (λ e. decrypted c cid_of p a (open_with p (c.utf8 info) e key))
        (parts_of-package_of (seal_for p (c.utf8 info) salt m (p.get_public_key key)) k n)
      ∙ ap (decrypted c cid_of p a) (open_with-seal_for p laws (c.utf8 info) salt m key)

  -- What a recipient downloads is what the gateways answer with: a package that anybody has sealed for
  -- the recipient's public key, with a key of 32 bytes and a nonce of 12, is opened and given as the
  -- attachment, whatever its CID, if all who answer for the CID answer with it and one does.
  pub download_attachment-sealed :
      (client : Client) (w : Web) (a : Attachment) (salt : Salt) (m key : Bytes)
      → length (p.get_public_key salt.secret) ≡ 32
      → length salt.nonce ≡ 12
      → IsServed client w a.cid (encrypted_package c cid_of p salt m (p.get_public_key key))
      → download_attachment c cid_of p client w a key
        ≡ some (record { data_bytes = m; filename = a.filename; mime_type = a.mime_type })
  unfolding download_attachment
  download_attachment-sealed client w a salt m key k n served =
      ap (unpacked c cid_of p a key) (
        download-IsServed client w a.cid
          (encrypted_package c cid_of p salt m (p.get_public_key key)) served)
      ∙ unpacked-lem a salt m key k n

  -- An attachment that was uploaded, with a key of 32 bytes and a nonce of 12, is downloaded as it was,
  -- with its name and its type: by whatever service it was uploaded, if whoever answers for its CID
  -- later answers with what was uploaded, and some gateway does, or the node of the recipient.
  pub download_attachment-upload :
      (client reader : Client) (w later : Web) (salt : Salt) (m key : Bytes)
      (filename mime_type : Text) (a : Attachment)
      → length (p.get_public_key salt.secret) ≡ 32
      → length salt.nonce ≡ 12
      → upload_attachment c cid_of p client w salt m filename (p.get_public_key key) mime_type
        ≡ some a
      → IsServed reader later a.cid (encrypted_package c cid_of p salt m (p.get_public_key key))
      → download_attachment c cid_of p reader later a key
        ≡ some (record { data_bytes = m; filename = filename; mime_type = mime_type })
  unfolding upload_attachment
  download_attachment-upload client reader w later salt m key filename mime_type a k n up served =
      let packed : Bytes = encrypted_package c cid_of p salt m (p.get_public_key key) in
      elim (Option-cases (upload c cid_of client w packed)) [
        | inl e ↦
            absurd
              (none-ne-some a (ap (attached c cid_of p filename mime_type m packed) (sym e) ∙ up))
        | inr (u, e) ↦
            let same =
              some-injective (ap (attached c cid_of p filename mime_type m packed) (sym e) ∙ up) in
            download_attachment-sealed reader later a salt m key k n served
            ∙ ap
                (λ y.
                  some (record { data_bytes = m; filename = y.filename; mime_type = y.mime_type }))
                (sym same)
      ]
