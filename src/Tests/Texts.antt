-- ===== src/Tests/Texts.antt =====
-- Concrete functions in the place of JSON and of the signatures: a list of texts as one text, in which
-- 1 ends an entry; a signature is the key before what is signed.
use chainmail_protocol.Base.{
  ℕ, zero, suc, ◌≡◌, refl, ap, ◌∙◌, List, [], ◌∷◌, ◌++◌, Option, none, some, Text, Bytes, holds,
  text_discrete, holds_of,
}
use chainmail_protocol.Crypto.{Signing, SigningLaws}
use chainmail_protocol.Protocol.Message.{Content, Format}
use chainmail_protocol.Protocol.SealedEnvelope.{Inner, SealedFormat}

abbrev text_then : Text → Text → Text
text_then [] rest = 1 ∷ rest
text_then (u ∷ us) rest = suc (suc u) ∷ text_then us rest

abbrev pub join : List Text → Text
join [] = []
join (t ∷ ts) = text_then t (join ts)

abbrev prepend : ℕ → List Text → List Text
prepend u [] = []
prepend u (t ∷ ts) = (u ∷ t) ∷ ts

abbrev pub split : Text → List Text
split [] = []
split (zero ∷ us) = split us
split (suc zero ∷ us) = [] ∷ split us
split (suc (suc u) ∷ us) = prepend u (split us)

split-text_then : (t rest : Text) → split (text_then t rest) ≡ t ∷ split rest
split-text_then [] rest = refl
split-text_then (u ∷ us) rest = ap (prepend u) (split-text_then us rest)

pub split-join : (ts : List Text) → split (join ts) ≡ ts
split-join [] = refl
split-join (t ∷ ts) = split-text_then t (join ts) ∙ ap (t ∷◌) (split-join ts)

abbrev maybe : Option Text → Text
maybe none = []
maybe (some t) = 0 ∷ t

abbrev of_maybe : Text → Option Text
of_maybe [] = none
of_maybe (u ∷ t) = some t

of_maybe-maybe : (o : Option Text) → of_maybe (maybe o) ≡ o
of_maybe-maybe none = refl
of_maybe-maybe (some t) = refl

abbrev maybe_list : Option (List Text) → List Text
maybe_list none = []
maybe_list (some ts) = [] ∷ ts

abbrev of_maybe_list : List Text → Option (List Text)
of_maybe_list [] = none
of_maybe_list (t ∷ ts) = some ts

of_maybe_list-maybe_list : (o : Option (List Text)) → of_maybe_list (maybe_list o) ≡ o
of_maybe_list-maybe_list none = refl
of_maybe_list-maybe_list (some ts) = refl

abbrev parts : Content → List Text
parts t =
    maybe t.subject ∷ maybe t.body ∷ maybe t.reply_to ∷ maybe t.thread_id ∷ maybe_list t.attachments

abbrev of_parts : List Text → Option Content
of_parts (a ∷ b ∷ r ∷ t ∷ ts) = some (record {
  subject = of_maybe a;
  body = of_maybe b;
  attachments = of_maybe_list ts;
  reply_to = of_maybe r;
  thread_id = of_maybe t;
})
of_parts _ = none

of_parts-parts : (t : Content) → of_parts (parts t) ≡ some t
of_parts-parts t =
    rw
      (
        of_maybe-maybe t.subject,
        of_maybe-maybe t.body,
        of_maybe-maybe t.reply_to,
        of_maybe-maybe t.thread_id,
        of_maybe_list-maybe_list t.attachments,
      )
      refl

abbrev pub format : Format
format = record {
  signed_text = λ s. join (s.version ∷ s.from ∷ s.to ∷ s.encrypted.ciphertext ∷ []);
  content_text = λ t. join (parts t);
  content_of = λ t. of_parts (split t);
}

pub content_of-content_text : (t : Content) → format.content_of (format.content_text t) ≡ some t
content_of-content_text t = ap of_parts (split-join (parts t)) ∙ of_parts-parts t

abbrev fields : Inner → Text → List Text
fields n s =
    n.version
    ∷ n.from
    ∷ n.from_public_key
    ∷ n.from_encryption_key
    ∷ n.to
    ∷ (n.timestamp ∷ [])
    ∷ n.extra
    ∷ s
    ∷ parts n.content

abbrev with_content : (Content → Inner) → Text → Option Content → Option (Inner × Text)
with_content f s none = none
with_content f s (some t) = some (f t, s)

abbrev of_fields : List Text → Option (Inner × Text)
of_fields (v ∷ a ∷ k ∷ e ∷ b ∷ (u ∷ us) ∷ x ∷ s ∷ ts) =
    with_content
      (λ t. record {
        version = v;
        from = a;
        from_public_key = k;
        from_encryption_key = e;
        to = b;
        timestamp = u;
        content = t;
        extra = x;
      })
      s (of_parts ts)
of_fields _ = none

abbrev pub sealed_format : SealedFormat
sealed_format = record {
  inner_text = λ n. join (fields n []);
  signed_text = λ n s. join (fields n s);
  signed_of = λ t. of_fields (split t);
}

pub signed_of-signed_text :
    (n : Inner) (s : Text) → sealed_format.signed_of (sealed_format.signed_text n s) ≡ some (n, s)
signed_of-signed_text n s =
    ap of_fields (split-join (fields n s))
    ∙ ap (with_content (λ t. record n { content = t }) s) (of_parts-parts n.content)

abbrev of_prefix : Text → Option Bytes
of_prefix [] = none
of_prefix (u ∷ us) = some us

abbrev pub signing : Signing
signing = record {
  get_public_key = λ k. k;
  sign = λ m k. k ++ m;
  verify = λ s m k. holds (text_discrete s (k ++ m));
  base58_encode = λ b. b'z' ∷ b;
  base58_decode = of_prefix;
}

abbrev pub signing_laws : SigningLaws signing
signing_laws = record {
  verify-sign = λ m k. holds_of (text_discrete (k ++ m) (k ++ m)) refl;
  base58_decode-base58_encode = λ b. refl;
  base58_encode-prefix = λ b. refl;
}
