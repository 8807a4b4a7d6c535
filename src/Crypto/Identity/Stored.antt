-- ===== src/Crypto/Identity/Stored.antt =====
-- src/crypto/identity.js: what IdentityStore keeps.
use chainmail_protocol.Base.{
  ◌≡◌, refl, ap, ◌∙◌, sym, ◌≢◌, true, false, List, [], ◌∷◌, none, some, Text, codes, inl, inr,
  starts_with, starts_with-append, length, ◌==◌, Bool-cases, arith,
}
use chainmail_protocol.Base.Database.{Db, DbLaws, get-put_self, get-put_ne}
use chainmail_protocol.Base.Dict.{In}
use chainmail_protocol.Crypto.{Encodings, EncodingLaws, Signing}
use chainmail_protocol.Crypto.Identity.{
  Identity, Value, identity_json, default_name, to_json, from_json, identity_key, names_identity,
  list_entries, list_identities, save_identity, get_identity, get_default_identity,
}

-- A list that is not empty.
abbrev IsSome : List (Text × Text) → Type 0
IsSome es = (length es == 0) ≡ false

names_identity-IsSome :
    (k : Text) (v : Value) (rest : List (Text × Text)) → IsSome (names_identity k v rest)
names_identity-IsSome k (identity_json a b d) rest = ground arith
names_identity-IsSome k (default_name n) rest = ground arith

list_entries-IsSome :
    (k : Text) (v : Value) (es : List (Text × Value))
    → starts_with k (codes "identity:") ≡ true
    → In (k, v) es
    → IsSome (list_entries es)
unfolding list_entries
list_entries-IsSome k v [] e h = elim h [ ]
list_entries-IsSome k v ((j, w) ∷ es) e (inl p) =
    rw (ap (λ x. starts_with x (codes "identity:")) (sym (ap (λ q. q.0) p)) ∙ e)
      (names_identity-IsSome j w (list_entries es))
list_entries-IsSome k v ((j, w) ∷ es) e (inr h) =
    elim (Bool-cases (starts_with j (codes "identity:"))) [
      | inl t ↦ rw t (names_identity-IsSome j w (list_entries es))
      | inr t ↦ rw t (list_entries-IsSome k v es e h)
    ]

module _ (g : Signing) (c : Encodings) (db : Db Value) (laws : DbLaws db) where
  -- The identity is among those that are counted.
  save_identity-put :
      (name : Text) (i : Identity) (s : db.Store)
      → save_identity g c db name i s ≡ db.put (identity_key name) (to_json g c i) s
  unfolding save_identity list_identities
  save_identity-put name i s =
      rw
        (list_entries-IsSome (identity_key name) (to_json g c i)
          (db.iterator (db.put (identity_key name) (to_json g c i) s))
          (starts_with-append (codes "identity:") name)
          ((laws.In-iterator (identity_key name) (to_json g c i)
              (db.put (identity_key name) (to_json g c i) s)).1
            (get-put_self laws (identity_key name) (to_json g c i) s)))
        refl

  identity_key-default : (name : Text) → codes "default" ≢ identity_key name
  identity_key-default name h = cc

  -- An identity that is saved is read back under its name, and saving makes no identity the default
  -- one, not even the first: the default identity is none if none was chosen before.
  pub get_identity-save_identity :
      (codec : EncodingLaws c) (name : Text) (i : Identity) (s : db.Store)
      → db.get (codes "default") s ≡ none
      → (get_identity g c db name (save_identity g c db name i s) ≡ some i)
        × (get_default_identity g c db (save_identity g c db name i s) ≡ none)
  unfolding get_identity get_default_identity from_json to_json
  get_identity-save_identity codec name i s h = rw (save_identity-put name i s) (
    rw (get-put_self laws (identity_key name) (to_json g c i) s)
        (rw (codec.from_hex-hex i.private_key) (rw (codec.from_hex-hex i.public_key) refl)),
    rw
        (get-put_ne laws (codes "default") (identity_key name) (to_json g c i) s
          (identity_key-default name))
        (rw h refl),
  )
