-- ===== src/Storage/DhtStorage/Lookup.antt =====
-- src/storage/dht-storage.js: what DHTMessageStorage reads back.
use chainmail_protocol.Base.{
  ℕ, ◌≤◌, ◌≡◌, refl, ◌↔◌, ◌⊎◌, inl, inr, Bool, true, List, [], ◌∷◌, ◌++◌, Option, none, some,
  if◌then◌else◌, ltb, Text, codes, text_discrete, starts_with, arith, Bool-cases, Option-cases, ap,
  sym, le→ltb_false, subst, ◌∙◌,
}
use chainmail_protocol.Base.Dict.{In}
use chainmail_protocol.Base.Sort.{by_key, IsSorted, sort-IsSorted, In-sort}
use chainmail_protocol.Base.Database.{Db, DbLaws}
use chainmail_protocol.Storage.DhtStorage.{
  MessageRecord, Json, message_record, is_expired, collect, timestamp_of, get_messages,
  expired_keys, delete_keys, cleanup_expired,
}

module _ (db : Db Json) (laws : DbLaws db) (fresh : Text) where
  -- What a clean-up at the time `now` leaves of an entry.
  abbrev pub unexpired : ℕ → Option Json → Option Json
  unexpired now none = none
  unexpired now (some v) = if ltb (message_record fresh now v).expires now then none else some v

  get-delete_keys :
      (k : Text) (ks : List Text) (s : db.Store)
      → (In k ks × (db.get k (delete_keys db ks s) ≡ none))
        ⊎ ((¬ In k ks) × (db.get k (delete_keys db ks s) ≡ db.get k s))
  unfolding delete_keys
  get-delete_keys k [] s = inr ((λ i. i), refl)
  get-delete_keys k (j ∷ ks) s = elim (get-delete_keys k ks (db.del j s)) [
    | inl (i, e) ↦ inl (inr i, e)
    | inr (n, e) ↦ elim (text_discrete k j) [
      | yes p ↦ inl (inl p, ground (arith, laws.get-del k j s))
      | no q ↦ inr ((λ i. ground arith), ground (arith, laws.get-del k j s))
    ]
  ]

  expired_keys-In :
      (now : ℕ) (k : Text) (es : List (Text × Json))
      → In k (expired_keys db fresh now es)
      → (v : Json) × In (k, v) es × (is_expired now (message_record fresh now v) ≡ true)
  unfolding expired_keys
  expired_keys-In now k [] i = absurd i
  expired_keys-In now k ((j, w) ∷ es) i =
      elim (Bool-cases (is_expired now (message_record fresh now w))) [
        | inl e ↦
            elim (subst
              (λ b.
                In k (if b then j ∷ expired_keys db fresh now es else expired_keys db fresh now es))
              e i) [
                | inl q ↦ (w, inl (ap (λ x. (x, w)) q), e)
                | inr i' ↦ let r = expired_keys-In now k es i' in (r.0, inr r.1, r.2)
              ]
        | inr e ↦
            let r = expired_keys-In now k es (
              subst
                (λ b.
                  In k
                    (if b then j ∷ expired_keys db fresh now es else expired_keys db fresh now es))
                e i) in
            (r.0, inr r.1, r.2)
      ]

  In-expired_keys :
      (now : ℕ) (k : Text) (v : Json) (es : List (Text × Json))
      → In (k, v) es
      → is_expired now (message_record fresh now v) ≡ true
      → In k (expired_keys db fresh now es)
  unfolding expired_keys
  In-expired_keys now k v [] i h = absurd i
  In-expired_keys now k v ((j, w) ∷ es) (inr i) h = ground (arith, In-expired_keys now k v es i h)
  In-expired_keys now k v ((j, w) ∷ es) (inl q) h =
      rw (ap (λ e. is_expired now (message_record fresh now e.1)) (sym q) ∙ h)
        (inl (ap (λ e. e.0) q))

  -- The clean-up removes every expired record, and nothing else.
  pub get-cleanup_expired :
      (now : ℕ) (k : Text) (s : db.Store)
      → db.get k (cleanup_expired db fresh now s).0 ≡ unexpired now (db.get k s)
  unfolding cleanup_expired is_expired
  get-cleanup_expired now k s =
      elim (get-delete_keys k (expired_keys db fresh now (db.iterator s)) s) [
        | inl (i, e) ↦
            let r = expired_keys-In now k (db.iterator s) i in
            ground (arith, (laws.In-iterator k r.0 s).0 r.1, r.2)
        | inr (n, e) ↦ elim (Option-cases (db.get k s)) [
          | inl h ↦ ground arith
          | inr (v, h) ↦ elim (Bool-cases (is_expired now (message_record fresh now v))) [
            | inl x ↦
                absurd
                  (n (In-expired_keys now k v (db.iterator s) ((laws.In-iterator k v s).1 h) x))
            | inr x ↦ ground arith
          ]
        ]
      ]

  -- The entry of a record that is read.
  abbrev pub Source : ℕ → Text → MessageRecord → Text → Json → Type 0
  Source now prefix r k v =
      (starts_with k prefix ≡ true) × (r ≡ message_record fresh now v) × (now ≤ r.expires)

  collect-In :
      (now : ℕ) (prefix : Text) (r : MessageRecord) (es : List (Text × Json))
      → In r (collect db fresh now prefix es)
      → (k : Text) × (v : Json) × In (k, v) es × Source now prefix r k v
  unfolding collect is_expired
  collect-In now prefix r [] = λ i. absurd i
  collect-In now prefix r ((j, w) ∷ es) = elim (Bool-cases (starts_with j prefix)) [
    | inr e ↦ rw e (λ i. let f = collect-In now prefix r es i in (f.0, f.1, inr f.2, f.3))
    | inl e ↦ elim (Bool-cases (is_expired now (message_record fresh now w))) [
      | inl x ↦ rw e (rw x (λ i. let f = collect-In now prefix r es i in (f.0, f.1, inr f.2, f.3)))
      | inr x ↦ rw e (
          rw x (λ i. elim i [
            | inl q ↦ (j, w, inl refl, (e, q, subst (λ r. now ≤ r.expires) (sym q) (ground arith)))
            | inr i' ↦ let f = collect-In now prefix r es i' in (f.0, f.1, inr f.2, f.3)
          ]))
    ]
  ]

  In-collect :
      (now : ℕ) (prefix : Text) (r : MessageRecord) (k : Text) (v : Json) (es : List (Text × Json))
      → In (k, v) es
      → Source now prefix r k v
      → In r (collect db fresh now prefix es)
  unfolding collect is_expired
  In-collect now prefix r k v [] i f = absurd i
  In-collect now prefix r k v ((j, w) ∷ es) (inr i) f =
      ground (arith, In-collect now prefix r k v es i f)
  In-collect now prefix r k v ((j, w) ∷ es) (inl q) f =
      rw (ap (λ e. starts_with e.0 prefix) (sym q) ∙ f.0) (
        rw
          (le→ltb_false (message_record fresh now w).expires now (
            subst (λ e. now ≤ (message_record fresh now e.1).expires) q
              (subst (λ r. now ≤ r.expires) f.1 f.2)))
          (inl (f.1 ∙ ap (λ e. message_record fresh now e.1) q)))

  -- The messages of a recipient are read in the order of their times, and they are the unexpired
  -- records whose key starts with the recipient and a colon.
  pub In-get_messages :
      (now : ℕ) (recipient : Text) (s : db.Store) (r : MessageRecord)
      → IsSorted (timestamp_of db) (get_messages db fresh now recipient s)
        × (In r (get_messages db fresh now recipient s) ↔ (
            (k : Text) × (v : Json) × (db.get k s ≡ some v)
            × Source now (recipient ++ codes ":") r k v))
  unfolding get_messages
  In-get_messages now recipient s r = (
    sort-IsSorted (timestamp_of db) found,
    (
      (λ i.
          let f = collect-In now prefix r (db.iterator s) ((In-sort order r found).0 i) in
          (f.0, f.1, (laws.In-iterator f.0 f.1 s).0 f.2, f.3)),
      (λ f. (In-sort order r found).1 (
          In-collect now prefix r f.0 f.1 (db.iterator s) ((laws.In-iterator f.0 f.1 s).1 f.2)
            f.3)),
    ),
  )
    where
      prefix : Text
      prefix = recipient ++ codes ":"

      order : MessageRecord → MessageRecord → Bool
      order = by_key (timestamp_of db)

      found : List MessageRecord
      found = collect db fresh now prefix (db.iterator s)
