-- ===== src/Crypto/DoubleRatchet/Sessions/Serialized.antt =====
-- src/crypto/double-ratchet.js: a session is read back as it was serialized.
use chainmail_protocol.Base.{
  ℕ, ◌≡◌, ◌≢◌, refl, ap, ◌∙◌, sym, [], ◌∷◌, ◌++◌, Option, none, some, Text, Bytes, All, arith,
}
use mathlib.Core.List.{append-nil, append_assoc}
use chainmail_protocol.Base.Dict.{Dict, text_key, get, set, get-set_ne}
use chainmail_protocol.Crypto.{Encodings, EncodingLaws}
use chainmail_protocol.Crypto.DoubleRatchet.{KeyPair, State, skip_key}
use chainmail_protocol.Crypto.DoubleRatchet.Sessions.{
  key_text, text_key_of, pair_text, pair_of, entries, set_entries, serialize, deserialize,
}

-- No key comes twice, as in a Map.
abbrev pub IsMap : Dict (Bytes × ℕ) Bytes → Type 0
IsMap [] = Unit
IsMap ((k, v) ∷ m) = All (λ e. e.0 ≢ k) m × IsMap m

abbrev IsFresh : Dict (Bytes × ℕ) Bytes → Dict (Bytes × ℕ) Bytes → Type 0
IsFresh m d = All (λ e. get e.0 m ≡ none) d

set-new :
    (k : Bytes × ℕ) (v : Bytes) (m : Dict (Bytes × ℕ) Bytes)
    → get k m ≡ none
    → set k v m ≡ m ++ (k, v) ∷ []
unfolding get set
set-new k v [] h = refl
set-new k v ((j, w) ∷ m) h = ground (arith, set-new k v m)

IsFresh-empty : (d : Dict (Bytes × ℕ) Bytes) → IsFresh [] d
unfolding get
IsFresh-empty [] = tt
IsFresh-empty (e ∷ d) = (refl, IsFresh-empty d)

set-IsFresh :
    (k : Bytes × ℕ) (v : Bytes) (m d : Dict (Bytes × ℕ) Bytes)
    → All (λ e. e.0 ≢ k) d
    → IsFresh m d
    → IsFresh (set k v m) d
set-IsFresh k v m [] h f = tt
set-IsFresh k v m ((j, w) ∷ d) h f = (get-set_ne k j v m h.0 ∙ f.0, set-IsFresh k v m d h.1 f.1)

module _ (c : Encodings) where
  -- The base64 of a key that is there is not empty.
  abbrev pub IsKept : Option Bytes → Type 0
  IsKept none = Unit
  IsKept (some key) = c.to_base64 key ≢ []

  abbrev pub IsStorable : State → Type 0
  IsStorable s = IsKept s.dhr × IsKept s.rk × IsKept s.cks × IsKept s.ckr × IsMap s.skipped

module _ (c : Encodings) (codec : EncodingLaws c) where
  set_entries-entries :
      (d m : Dict (Bytes × ℕ) Bytes)
      → IsMap d
      → IsFresh m d
      → set_entries c (entries c d) m ≡ m ++ d
  unfolding set_entries entries
  set_entries-entries [] m h f = sym (append-nil m)
  set_entries-entries ((k, v) ∷ d) m h f =
      ap (λ w. set_entries c (entries c d) (set k w m)) (codec.from_base64-to_base64 v)
      ∙ set_entries-entries d (set k v m) h.1 (set-IsFresh k v m d h.0 f.1)
      ∙ ap (◌++ d) (set-new k v m f.0)
      ∙ append_assoc m ((k, v) ∷ []) d

  text_key_of-cons : (t : Text) → t ≢ [] → text_key_of c (some t) ≡ some (c.from_base64 t)
  text_key_of-cons [] h = absurd (h refl)
  text_key_of-cons (u ∷ us) h = refl

  text_key_of-key_text : (o : Option Bytes) → IsKept c o → text_key_of c (key_text c o) ≡ o
  text_key_of-key_text none h = refl
  text_key_of-key_text (some key) h =
      text_key_of-cons (c.to_base64 key) h ∙ ap some (codec.from_base64-to_base64 key)

  pair_of-pair_text : (o : Option KeyPair) → pair_of c (pair_text c o) ≡ o
  pair_of-pair_text none = refl
  pair_of-pair_text (some pair) =
      rw (codec.from_base64-to_base64 pair.private_key, codec.from_base64-to_base64 pair.public_key)
        refl

  -- A state is read back as it was serialized.
  pub deserialize-serialize : (s : State) → IsStorable c s → deserialize c (serialize c s) ≡ s
  unfolding deserialize serialize
  deserialize-serialize s h =
      rw
        (
          pair_of-pair_text s.dhs,
          text_key_of-key_text s.dhr h.0,
          text_key_of-key_text s.rk h.1,
          text_key_of-key_text s.cks h.2,
          text_key_of-key_text s.ckr h.3,
          set_entries-entries s.skipped [] h.4 (IsFresh-empty s.skipped),
        )
        refl
