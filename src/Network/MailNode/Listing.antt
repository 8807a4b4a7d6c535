-- ===== src/Network/MailNode/Listing.antt =====
-- src/network/node.js: what a user is shown of the mailbox.
use chainmail_protocol.Base.{
  ℕ, ◌≤◌, ◌≡◌, refl, ap, sym, subst, ◌∙◌, ◌↔◌, inl, inr, Bool, true, false, List, [], ◌∷◌, some,
  if◌then◌else◌, Text, codes, arith, All, Bool-cases, drop, starts_with, append-drop,
  starts_with-append,
}
use chainmail_protocol.Base.Database.{Db, DbLaws}
use chainmail_protocol.Base.Dict.{In}
use chainmail_protocol.Base.Sort.{In-sort, Orders, IsOrdered, sort-IsOrdered}
use chainmail_protocol.Crypto.{Encodings}
use chainmail_protocol.Network.MailNode.{
  Entry, inbox_entry, sent_entry, Message, Format, Answers, Node, Fetched, inbox_key, id_of,
}
use chainmail_protocol.Network.MailNode.Operations.{
  newest_first, shown_id, list_entry, list_inbox, get_inbox, fetch_from_all_peers, mark_as_read,
  delete_message,
}
use chainmail_protocol.Network.MailNode.Mailbox.{all_fetched, fetch_from_all_peers-HasUnread}

All-unit : {A : Type 0} (xs : List A) → All (λ x. Unit {0}) xs
All-unit [] = tt
All-unit (x ∷ xs) = (tt, All-unit xs)

abbrev pub IsNewer : Message → Message → Type 0
IsNewer a b = b.envelope.timestamp ≤ a.envelope.timestamp

abbrev pub entry_of : Message → Entry
entry_of m = inbox_entry m.envelope m.received_at m.read

module _ (c : Encodings) (f : Format) (db : Db Entry) where
  -- Messages that the user has read, or deleted.
  abbrev pub handle : Node db.Store → Bool × Text → Node db.Store
  handle n (true, id) = mark_as_read c f db id n
  handle n (false, id) = delete_message c f db id n

  abbrev pub handle_all : Node db.Store → List (Bool × Text) → Node db.Store
  handle_all n [] = n
  handle_all n (x ∷ xs) = handle_all (handle n x) xs

module _ (c : Encodings) (f : Format) (db : Db Entry) (laws : DbLaws db) where
  newest_first-Orders : Orders newest_first IsNewer
  newest_first-Orders = record {
    if_true = λ x y h. ground arith;
    if_false = λ x y h. ground arith;
    trans = λ x y z h k. omega (arith, h, k);
  }

  -- An entry of the mailbox that the message shows.
  abbrev pub Shows : Message → (Text → Entry → Type 0) → Type 0
  Shows m Has = (id : Text) × (m.id ≡ shown_id m.envelope.id id) × Has (inbox_key id) (entry_of m)

  list_entry-In :
      (m : Message) (k : Text) (v : Entry) (es : List (Text × Entry))
      → inbox_key (drop 6 k) ≡ k
      → (In m (list_inbox es) → Shows m (λ j w. In (j, w) es))
      → In m (list_entry k v (list_inbox es))
      → Shows m (λ j w. In (j, w) ((k, v) ∷ es))
  list_entry-In m k (inbox_entry e at read) es h rest (inl q) = (
    drop 6 k,
    subst (λ x. x.id ≡ shown_id x.envelope.id (drop 6 k)) (sym q) refl,
    inl (ap (λ x. (inbox_key (drop 6 k), entry_of x)) q ∙ ap (λ x. (x, inbox_entry e at read)) h),
  )
  list_entry-In m k (inbox_entry e at read) es h rest (inr i) =
      let (id, p, j) = rest i in (id, p, inr j)
  list_entry-In m k (sent_entry e at) es h rest i = let (id, p, j) = rest i in (id, p, inr j)

  In-list_entry :
      (m : Message) (k : Text) (v : Entry) (rest : List Message)
      → In m rest
      → In m (list_entry k v rest)
  In-list_entry m k (inbox_entry e at read) rest i = inr i
  In-list_entry m k (sent_entry e at) rest i = i

  list_inbox-In :
      (m : Message) (es : List (Text × Entry))
      → In m (list_inbox es)
      → Shows m (λ j w. In (j, w) es)
  unfolding list_inbox
  list_inbox-In m [] i = absurd i
  list_inbox-In m ((k, v) ∷ es) i = elim (Bool-cases (starts_with k (codes "inbox:"))) [
    | inl t ↦
        list_entry-In m k v es (append-drop (codes "inbox:") k t) (list_inbox-In m es)
          (subst (λ b. In m (if b then list_entry k v (list_inbox es) else list_inbox es)) t i)
    | inr t ↦
        let (id, p, j) =
          list_inbox-In m es
            (subst (λ b. In m (if b then list_entry k v (list_inbox es) else list_inbox es)) t i) in
        (id, p, inr j)
  ]

  In-list_inbox :
      (m : Message) (id : Text) (es : List (Text × Entry))
      → m.id ≡ shown_id m.envelope.id id
      → In (inbox_key id, entry_of m) es
      → In m (list_inbox es)
  unfolding list_inbox
  In-list_inbox m id [] p i = absurd i
  In-list_inbox m id ((k, v) ∷ es) p (inl q) =
      rw
        (ap (λ x. starts_with x.0 (codes "inbox:")) (sym q)
          ∙ starts_with-append (codes "inbox:") id)
        (subst (λ x. In m (list_entry x.0 x.1 (list_inbox es))) q
          (inl (ap (λ y. record m { id = y }) p)))
  In-list_inbox m id ((k, v) ∷ es) p (inr i) = elim (Bool-cases (starts_with k (codes "inbox:"))) [
    | inl t ↦ rw t (In-list_entry m k v (list_inbox es) (In-list_inbox m id es p i))
    | inr t ↦ rw t (In-list_inbox m id es p i)
  ]

  -- The mailbox is shown newest first, and it shows what stands in the database: each entry with its
  -- envelope, its time and whether it was read, under the id of its key or, if the envelope brings an
  -- id along, under that.
  pub In-get_inbox :
      (now : ℕ) (answers : List Answers) (n : Node db.Store) (m : Message)
      → IsOrdered IsNewer (get_inbox c f db now answers n).1
        × (In m (get_inbox c f db now answers n).1 ↔ (
            (id : Text) × (m.id ≡ shown_id m.envelope.id id)
            × (db.get (inbox_key id) (get_inbox c f db now answers n).0.messages
                ≡ some (entry_of m))))
  unfolding get_inbox
  In-get_inbox now answers n m =
      let s : db.Store = (fetch_from_all_peers c f db now answers n).messages in
      let es : List Message = list_inbox (db.iterator s) in
      (
        sort-IsOrdered newest_first-Orders es,
        (
          (λ i.
              let (id, p, j) = list_inbox-In m (db.iterator s) ((In-sort newest_first m es).0 i) in
              (id, p, (laws.In-iterator (inbox_key id) (entry_of m) s).0 j)),
          (λ g. (In-sort newest_first m es).1 (
              In-list_inbox m g.0 (db.iterator s) g.1
                ((laws.In-iterator (inbox_key g.0) (entry_of m) s).1 g.2))),
        ),
      )

  -- What was read or deleted comes back: as long as some peer answers with a message, the next look
  -- into the mailbox shows the entry of its id as unread, whatever messages were marked as read or
  -- deleted before.
  pub get_inbox-unread :
      (now : ℕ) (answers : List Answers) (n : Node db.Store) (xs : List (Bool × Text)) (x : Fetched)
      → In x (all_fetched c f answers)
      → (m : Message) × In m (get_inbox c f db now answers (handle_all c f db n xs)).1
        × (m.id ≡ shown_id m.envelope.id (id_of c f x))
        × (m.read ≡ false)
  unfolding get_inbox
  get_inbox-unread now answers n xs x i =
      let (e, h, g) =
        fetch_from_all_peers-HasUnread c f db laws now (λ id e. Unit {0}) answers
          (handle_all c f db n xs) x (All-unit (all_fetched c f answers)) i in
      let m : Message = record {
        id = shown_id e.id (id_of c f x);
        envelope = e;
        received_at = now;
        read = false;
      } in
      (
        m,
        (In-get_inbox now answers (handle_all c f db n xs) m).1.1 (id_of c f x, refl, g),
        refl,
        refl,
      )
