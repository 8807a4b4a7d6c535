-- ===== src/Protocol/SealedEnvelope/Exchange.antt =====
-- src/protocol/sealed-envelope.js: what is built is parsed, and whom a parsed envelope is from.
use chainmail_protocol.Base.{
  ◌≡◌, refl, ap, ◌∙◌, true, some, holds_of, text_discrete, Text, Bytes, codes,
}
use chainmail_protocol.Crypto.{Primitives, Laws, Encodings, EncodingLaws, Signing, SigningLaws}
use chainmail_protocol.Crypto.Encryption.{open_with-serialized}
use chainmail_protocol.Crypto.Identity.{
  Identity, address, sign, encryption_private_key, encryption_public_key,
}
use chainmail_protocol.Protocol.{ok}
use chainmail_protocol.Protocol.SealedEnvelope.{
  SealedDraft, Inner, SealedEnvelope, Opened, SealedFormat, Chance, info_inner,
  generate_routing_token, encrypt_for_recipient, decrypt_payload, inner_hash, inner_of, seal_inner,
  build_to, build, opened, verify_inner, parse, is_for_me,
}

module _ (p : Primitives) (c : Encodings) (g : Signing) (f : SealedFormat) where
  decrypt_payload-encrypt_for_recipient :
      (laws : Laws p) (codec : EncodingLaws c) (r : Chance) (m : Bytes) (i : Identity)
      → decrypt_payload p c i (encrypt_for_recipient p c r.salt m (encryption_public_key p c i))
        ≡ some m
  unfolding decrypt_payload encrypt_for_recipient encryption_public_key
  decrypt_payload-encrypt_for_recipient laws codec r m i =
      open_with-serialized p c laws codec (c.utf8 info_inner) r.salt m
        (encryption_private_key p c i)

  -- Whatever sender the inner envelope names, it is accepted if it is signed with the key that it
  -- brings along.
  parse-seal_inner :
      (laws : Laws p) (codec : EncodingLaws c) (keys : SigningLaws g)
      (read : (n : Inner) (s : Text) → f.signed_of (f.signed_text n s) ≡ some (n, s)) (r : Chance)
      (sender i : Identity) (n : Inner)
      → sender.public_key ≡ g.get_public_key sender.private_key
      → n.from_public_key ≡ c.to_base64 sender.public_key
      → n.to ≡ address g i
      → parse p c g f i (seal_inner p c g f r sender n (address g i) (encryption_public_key p c i))
        ≡ ok (opened p c g f n)
  unfolding parse seal_inner sign verify_inner
  parse-seal_inner laws codec keys read r sender i n pair key to =
      let s : Text = c.to_base64 (g.sign (inner_hash p c g f n) sender.private_key) in
      rw
        (
          holds_of (text_discrete (codes "sealed") (codes "sealed")) refl,
          decrypt_payload-encrypt_for_recipient laws codec r (c.utf8 (f.signed_text n s)) i,
          codec.from_utf8-utf8 (f.signed_text n s),
          read n s,
          holds_of (text_discrete n.to (address g i)) to,
          codec.from_base64-to_base64 (g.sign (inner_hash p c g f n) sender.private_key),
          ap c.from_base64 key ∙ codec.from_base64-to_base64 sender.public_key ∙ pair,
          keys.verify-sign (inner_hash p c g f n) sender.private_key,
        )
        refl

  -- A sealed message that is built for the address and the encryption key of a recipient is recognized
  -- by it, and parsed with its content and its sender, if the sender's keys belong together.
  pub parse-build_sealed :
      (laws : Laws p) (codec : EncodingLaws c) (keys : SigningLaws g)
      (read : (n : Inner) (s : Text) → f.signed_of (f.signed_text n s) ≡ some (n, s)) (r : Chance)
      (d : SealedDraft) (i : Identity)
      → d.sender.public_key ≡ g.get_public_key d.sender.private_key
      → d.recipient ≡ some (address g i, encryption_public_key p c i)
      → (e : SealedEnvelope) × (build p c g f r d ≡ ok e)
        × (parse p c g f i e ≡ ok (opened p c g f (inner_of p c g f d (address g i) r.now)))
        × (is_for_me p c g f i e ≡ true)
        × ((inner_of p c g f d (address g i) r.now).from ≡ address g d.sender)
  unfolding build is_for_me
  parse-build_sealed laws codec keys read r d i pair to =
      let n : Inner = inner_of p c g f d (address g i) r.now in
      let e : SealedEnvelope =
        seal_inner p c g f r d.sender n (address g i) (encryption_public_key p c i) in
      (
        e,
        ap (build_to p c g f r d) to,
        parse-seal_inner laws codec keys read r d.sender i n pair refl refl,
        holds_of (text_discrete e.routing_token (generate_routing_token p c (address g i))) refl,
        refl,
      )

  -- Anybody can write in anybody's name: a sealed message whose inner envelope names any address `a`
  -- as its sender is accepted as verified and as from `a`, if another identity signs it with its own
  -- key and brings that key along.
  pub parse-forged :
      (laws : Laws p) (codec : EncodingLaws c) (keys : SigningLaws g)
      (read : (n : Inner) (s : Text) → f.signed_of (f.signed_text n s) ≡ some (n, s)) (r : Chance)
      (d : SealedDraft) (i : Identity) (a : Text)
      → d.sender.public_key ≡ g.get_public_key d.sender.private_key
      → (m : Opened) × (parse p c g f i (
            seal_inner p c g f r d.sender
              (record (inner_of p c g f d (address g i) r.now) { from = a })
              (address g i)
              (encryption_public_key p c i))
          ≡ ok m)
        × (m.from ≡ a)
        × (m.content ≡ d.content)
        × (m.verified ≡ true)
  unfolding inner_of
  parse-forged laws codec keys read r d i a pair =
      let n : Inner = record (inner_of p c g f d (address g i) r.now) { from = a } in
      (
        opened p c g f n,
        parse-seal_inner laws codec keys read r d.sender i n pair refl refl,
        refl,
        refl,
        refl,
      )
