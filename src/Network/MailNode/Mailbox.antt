-- ===== src/Network/MailNode/Mailbox.antt =====
-- src/network/node.js: what is in the mailbox after a node has asked its peers.
use chainmail_protocol.Base.{
  ℕ, ◌≡◌, refl, ap, sym, subst, ◌∙◌, inl, inr, Bool, true, false, List, [], ◌∷◌, ◌++◌, some,
  if◌then◌else◌, Text, text_discrete, arith, All, drop, false-ne-true, All-left, All-right,
}
use chainmail_protocol.Base.Database.{Db, DbLaws, get-put_self, get-put_ne}
use chainmail_protocol.Base.Dict.{In, In-append_left, In-append_right, In-append_cases}
use chainmail_protocol.Crypto.{Encodings}
use chainmail_protocol.Network.RelayNode.{is_seen}
use chainmail_protocol.Network.MailNode.{
  Envelope, Entry, inbox_entry, Format, Answers, Node, Fetched, inbox_key, fetch_messages_from_peer,
  id_of,
}
use chainmail_protocol.Network.MailNode.Operations.{
  store_message, receive, store_new, store_unseen, fetch_from_peers, fetch_from_all_peers,
}

inbox_key-injective : (j k : Text) → inbox_key j ≡ inbox_key k → j ≡ k
inbox_key-injective j k h = ap (drop 6) h

In-is_seen : (t : Text) (us : List Text) → is_seen t us ≡ true → In t us
unfolding is_seen
In-is_seen t [] h = absurd (false-ne-true h)
In-is_seen t (u ∷ us) h = elim (text_discrete t u) [
  | yes e ↦ inl e
  | no d ↦ inr (In-is_seen t us (ground arith))
]

-- What the peers answer with, in their order.
abbrev pub all_fetched : Encodings → Format → List Answers → List Fetched
all_fetched c f [] = []
all_fetched c f (a ∷ answers) = fetch_messages_from_peer c f a ++ all_fetched c f answers

module _ (c : Encodings) (f : Format) (db : Db Entry) (laws : DbLaws db) (now : ℕ)
    (P : Text → Envelope → Type 0) where
  -- An unread message under that id, received now.
  abbrev pub HasUnread : Text → Node db.Store → Type 0
  HasUnread id n =
      (e : Envelope) × P id e × (db.get (inbox_key id) n.messages ≡ some (inbox_entry e now false))

  abbrev IsNoted : List Text × Node db.Store → Type 0
  IsNoted t = (id : Text) → In id t.0 → HasUnread id t.1

  abbrev pub Holds : Fetched → Type 0
  Holds m = P (id_of c f m) m.envelope

  receive-IsNoted :
      (m : Fetched) (seen : List Text) (n : Node db.Store)
      → Holds m
      → IsNoted (seen, n)
      → IsNoted (seen ++ id_of c f m ∷ [], receive c f db (id_of c f m) m.envelope m.envelope now n)
  unfolding receive store_message
  receive-IsNoted m seen n h i id k = elim (text_discrete id (id_of c f m)) [
    | yes e ↦ (
      m.envelope,
      subst (λ x. P x m.envelope) (sym e) h,
      subst
          (λ x.
            db.get (inbox_key x) (store_message c f db (id_of c f m) m.envelope now n.messages)
            ≡ some (inbox_entry m.envelope now false))
          (sym e)
          (get-put_self laws (inbox_key (id_of c f m)) (inbox_entry m.envelope now false)
            n.messages),
    )
    | no d ↦
        let (e, h', g) = i id (elim (In-append_cases id seen (id_of c f m ∷ []) k) [
          | inl j ↦ j
          | inr j ↦ elim j [ inl e ↦ absurd (d e) | inr x ↦ absurd x ]
        ]) in
        (
          e,
          h',
          get-put_ne laws (inbox_key id) (inbox_key (id_of c f m))
                (inbox_entry m.envelope now false) n.messages
                (λ q. d (inbox_key-injective id (id_of c f m) q))
              ∙ g,
        )
  ]

  -- What was seen stays seen, and so is the message.
  abbrev Goes : Fetched → List Text → List Text × Node db.Store → Type 0
  Goes m seen t = IsNoted t × ((id : Text) → In id seen → In id t.0) × In (id_of c f m) t.0

  store_new_if :
      (m : Fetched) (seen : List Text) (n : Node db.Store) (b : Bool)
      → is_seen (id_of c f m) seen ≡ b
      → Holds m
      → IsNoted (seen, n)
      → Goes m seen (
          if b
          then (seen, n)
          else (seen ++ id_of c f m ∷ [], receive c f db (id_of c f m) m.envelope m.envelope now n))
  store_new_if m seen n true e h i = (i, (λ id j. j), In-is_seen (id_of c f m) seen e)
  store_new_if m seen n false e h i = (
    receive-IsNoted m seen n h i,
    (λ id j. In-append_left id seen (id_of c f m ∷ []) j),
    In-append_right (id_of c f m) seen (id_of c f m ∷ []) (inl refl),
  )

  store_new-lem :
      (m : Fetched) (t : List Text × Node db.Store)
      → Holds m
      → IsNoted t
      → Goes m t.0 (store_new c f db now m t)
  store_new-lem m (seen, n) = store_new_if m seen n (is_seen (id_of c f m) seen) refl

  -- Every message of a list is seen in the end.
  abbrev GoesAll : List Fetched → List Text → List Text × Node db.Store → Type 0
  GoesAll ms seen t =
      IsNoted t
      × ((id : Text) → In id seen → In id t.0)
      × ((m : Fetched) → In m ms → In (id_of c f m) t.0)

  store_unseen-GoesAll :
      (ms : List Fetched) (t : List Text × Node db.Store)
      → All Holds ms
      → IsNoted t
      → GoesAll ms t.0 (store_unseen c f db now ms t)
  unfolding store_unseen
  store_unseen-GoesAll [] t h i = (i, (λ id j. j), (λ m j. absurd j))
  store_unseen-GoesAll (x ∷ ms) t h i =
      let (noted, kept, there) = store_new-lem x t h.0 i in
      let (noted', kept', all) = store_unseen-GoesAll ms (store_new c f db now x t) h.1 noted in
      (
        noted',
        (λ id j. kept' id (kept id j)),
        (λ m j. elim j [
          | inl q ↦
              subst
                (λ y. In (id_of c f y) (store_unseen c f db now ms (store_new c f db now x t)).0)
                (sym q) (kept' (id_of c f x) there)
          | inr k ↦ all m k
        ]),
      )

  fetch_from_peers-GoesAll :
      (answers : List Answers) (t : List Text × Node db.Store)
      → All Holds (all_fetched c f answers)
      → IsNoted t
      → GoesAll (all_fetched c f answers) t.0 (fetch_from_peers c f db now answers t)
  unfolding fetch_from_peers
  fetch_from_peers-GoesAll [] t h i = (i, (λ id j. j), (λ m j. absurd j))
  fetch_from_peers-GoesAll (a ∷ answers) t h i =
      let ms : List Fetched = fetch_messages_from_peer c f a in
      let (noted, kept, there) =
        store_unseen-GoesAll ms t (All-left Holds ms (all_fetched c f answers) h) i in
      let (noted', kept', all) =
        fetch_from_peers-GoesAll answers (store_unseen c f db now ms t)
          (All-right Holds ms (all_fetched c f answers) h) noted in
      (
        noted',
        (λ id j. kept' id (kept id j)),
        (λ m j. elim (In-append_cases m ms (all_fetched c f answers) j) [
          | inl k ↦ kept' (id_of c f m) (there m k)
          | inr k ↦ all m k
        ]),
      )

  -- Every message that some peer answers with is in the mailbox afterwards, under its id.
  pub fetch_from_all_peers-HasUnread :
      (answers : List Answers) (n : Node db.Store) (m : Fetched)
      → All Holds (all_fetched c f answers)
      → In m (all_fetched c f answers)
      → HasUnread (id_of c f m) (fetch_from_all_peers c f db now answers n)
  unfolding fetch_from_all_peers
  fetch_from_all_peers-HasUnread answers n m h k =
      let (noted, kept, all) = fetch_from_peers-GoesAll answers ([], n) h (λ id j. absurd j) in
      noted (id_of c f m) (all m k)

module _ (c : Encodings) (f : Format) where
  -- Under this id there is no other envelope.
  abbrev pub Only : Text → Envelope → Fetched → Type 0
  Only id e m = id_of c f m ≡ id → m.envelope ≡ e

  pub fetch_from_all_peers-Only :
      (db : Db Entry) (laws : DbLaws db) (now : ℕ) (answers : List Answers) (n : Node db.Store)
      (id : Text) (e : Envelope) (m : Fetched)
      → All (Only id e) (all_fetched c f answers)
      → In m (all_fetched c f answers)
      → id_of c f m ≡ id
      → db.get (inbox_key id) (fetch_from_all_peers c f db now answers n).messages
        ≡ some (inbox_entry e now false)
  fetch_from_all_peers-Only db laws now answers n id e m h i q =
      let (d, same, got) =
        fetch_from_all_peers-HasUnread c f db laws now (λ j d. j ≡ id → d ≡ e) answers n m h i in
      ap (λ k. db.get (inbox_key k) (fetch_from_all_peers c f db now answers n).messages) (sym q)
      ∙ got
      ∙ ap (λ d. some (inbox_entry d now false)) (same q)
