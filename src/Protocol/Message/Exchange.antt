-- ===== src/Protocol/Message/Exchange.antt =====
-- src/protocol/message.js: what is built is parsed, and what a proof of work counts for.
use chainmail_protocol.Base.{
  ℕ, ◌<◌, ◌≡◌, refl, ap, ◌∙◌, sym, inl, inr, true, some, text_discrete, Text, Bytes, codes,
  starts_with, false-ne-true, holds_of, length, All,
}
use chainmail_protocol.Crypto.{Primitives, Laws, Encodings, EncodingLaws, Signing, SigningLaws}
use chainmail_protocol.Crypto.Encryption.{
  Salt, decrypt_message, deserialize_encrypted, decrypt_message-serialized,
}
use chainmail_protocol.Crypto.Identity.{
  Identity, address, address_to_public_key, sign, encryption_private_key, encryption_public_key,
  address_to_public_key-address,
}
use chainmail_protocol.Crypto.ProofOfWork.{
  Proof, default_difficulty, verify_proof_of_work, proof_at, max_rounds,
}
use chainmail_protocol.Crypto.ProofOfWork.Search.{
  compute_proof_of_work-cases, verify_proof_of_work-zero,
}
use chainmail_protocol.Protocol.{ok}
use chainmail_protocol.Protocol.Message.{
  Content, Draft, Signed, Envelope, Format, hash_envelope, sealed, finish, stamped, stamp, build,
  received, open_signed, parse, to,
}

module _ (p : Primitives) (c : Encodings) (g : Signing) (f : Format) where
  abbrev hash_of : Signed → Text
  hash_of s = c.hex (hash_envelope p c g f s)

  -- Some number that makes a proof is enough for a stamp.
  stamp-ok :
      (i : Identity) (s : Signed) (j : ℕ)
      → j < max_rounds
      → verify_proof_of_work c (hash_of s) (proof_at c (hash_of s) default_difficulty j) ≡ true
      → (pow : Proof) × (stamp p c g f i s ≡ ok (stamped p c g f i s pow))
        × (verify_proof_of_work c (hash_of s) pow ≡ true)
  unfolding stamp
  stamp-ok i s j h t = elim (compute_proof_of_work-cases c (hash_of s) default_difficulty j h) [
    | inl (k, e, q, v, w) ↦
        (proof_at c (hash_of s) default_difficulty k, ap (finish p c g f i s) e, v)
    | inr (e, w) ↦ absurd (false-ne-true (sym w ∙ t))
  ]

  parse-stamped :
      (codec : EncodingLaws c) (keys : SigningLaws g) (i r : Identity) (s : Signed) (pow : Proof)
      (t : Content)
      → i.public_key ≡ g.get_public_key i.private_key
      → f.content_of (f.content_text t) ≡ some t
      → starts_with s.version (codes "1.") ≡ true
      → s.to ≡ address g r
      → s.from ≡ address g i
      → decrypt_message p (deserialize_encrypted c s.encrypted) (encryption_private_key p c r)
        ≡ some (c.utf8 (f.content_text t))
      → verify_proof_of_work c (hash_of s) pow ≡ true
      → parse p c g f r (stamped p c g f i s pow)
        ≡ ok (received p c g f (stamped p c g f i s pow) t)
  unfolding parse open_signed stamped sign
  parse-stamped codec keys i r s pow t pair read version recipient sender content work =
      rw (version, holds_of (text_discrete s.to (address g r)) recipient, work)
        (rw
          (
            ap (address_to_public_key g) sender ∙ address_to_public_key-address g keys i,
            codec.from_base64-to_base64 (g.sign (hash_envelope p c g f s) i.private_key),
            pair,
            keys.verify-sign (hash_envelope p c g f s) i.private_key,
            content,
            codec.from_utf8-utf8 (f.content_text t),
            read,
          )
          refl)

  -- A message that is built for the address and the encryption key of a recipient is parsed by it,
  -- with its content and its sender, whenever some number up to 2^40 makes a proof of work for it, if
  -- the sender's keys belong together.
  pub parse-build :
      (laws : Laws p) (codec : EncodingLaws c) (keys : SigningLaws g)
      (read : (t : Content) → f.content_of (f.content_text t) ≡ some t) (salt : Salt) (d : Draft)
      (r : Identity) (j : ℕ)
      → d.sender.public_key ≡ g.get_public_key d.sender.private_key
      → j < max_rounds
      → (let s = sealed p c g f salt d (address g r) (encryption_public_key p c r) in
          verify_proof_of_work c (hash_of s) (proof_at c (hash_of s) default_difficulty j) ≡ true)
      → (e : Envelope) × (build p c g f salt
            (to (address g r) d)
            (some (encryption_public_key p c r))
          ≡ ok e)
        × (parse p c g f r e ≡ ok (received p c g f e d.content))
        × (e.signed.from ≡ address g d.sender)
  unfolding build to address stamped sealed encryption_public_key starts_with
  parse-build laws codec keys read salt d r j b h t =
      let s = sealed p c g f salt d (address g r) (encryption_public_key p c r) in
      let (pow, e, v) = stamp-ok d.sender s j h t in
      (
        stamped p c g f d.sender s pow,
        e,
        parse-stamped codec keys d.sender r s pow d.content b (read d.content) refl refl refl
            (decrypt_message-serialized p c laws codec salt (c.utf8 (f.content_text d.content))
              (encryption_private_key p c r))
            v,
        refl,
      )

  -- A proof that names the difficulty 0 is as good as work: a message that is sealed for the address
  -- and the encryption key of a recipient, signed, and stamped with any such proof is parsed by the
  -- recipient, with its content and its sender, if a hash is 32 bytes and the sender's keys belong
  -- together.
  pub parse-unworked :
      (laws : Laws p) (codec : EncodingLaws c) (keys : SigningLaws g)
      (read : (t : Content) → f.content_of (f.content_text t) ≡ some t)
      (hashes : (b : Bytes) → (length (c.sha256 b) ≡ 32) × All (λ x. x < 256) (c.sha256 b))
      (salt : Salt) (d : Draft) (r : Identity) (nonce hash : Text)
      → d.sender.public_key ≡ g.get_public_key d.sender.private_key
      → (let e =
            stamped p c g f d.sender
              (sealed p c g f salt d (address g r) (encryption_public_key p c r))
              (record { nonce = nonce; hash = hash; difficulty = 0 }) in
          (parse p c g f r e ≡ ok (received p c g f e d.content))
          × (e.signed.from ≡ address g d.sender))
  unfolding stamped sealed encryption_public_key starts_with
  parse-unworked laws codec keys read hashes salt d r nonce hash b =
      let s = sealed p c g f salt d (address g r) (encryption_public_key p c r) in
      (
        parse-stamped codec keys d.sender r s
            (record { nonce = nonce; hash = hash; difficulty = 0 }) d.content b (read d.content)
            refl refl refl
            (decrypt_message-serialized p c laws codec salt (c.utf8 (f.content_text d.content))
              (encryption_private_key p c r))
            (verify_proof_of_work-zero c (hash_of s) nonce hash hashes),
        refl,
      )
