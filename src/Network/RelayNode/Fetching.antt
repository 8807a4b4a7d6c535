-- ===== src/Network/RelayNode/Fetching.antt =====
-- src/network/relay-node.js: what a relay answers to those who fetch.
use chainmail_protocol.Base.{
  ℕ, ◌≤◌, ◌≡◌, ◌≢◌, refl, ap, sym, ◌∙◌, subst, ◌⊎◌, inl, inr, true, false, List, [], ◌∷◌, ◌++◌,
  some, arith, Text, codes, text_discrete, Bool-cases, All, All-append, map,
}
use chainmail_protocol.Base.Database.{Db, DbLaws, get-del_self, get-del_of, none-ne-some}
use chainmail_protocol.Storage.DhtStorage.History.{text_or_lem}
use chainmail_protocol.Base.Dict.{In, In-append_left, In-append_right, In-append_cases}
use chainmail_protocol.Storage.DhtStorage.{
  Json, MessageRecord, message_key, message_record, text_or, get_messages, delete_message,
}
use chainmail_protocol.Storage.DhtStorage.Lookup.{In-get_messages}
use chainmail_protocol.Network.RelayNode.{
  Relay, FetchRequest, is_seen, add_unseen, messages_of, fetch_records, text_if_any, before_colon,
  after_colon, delete_stored_message, stored_key, delete_delivered, deliver, handle_fetch_request,
  delivered,
}

-- Both get by without repetition of an id.
abbrev pub IsUnique : List MessageRecord → Type 0
IsUnique [] = Unit
IsUnique (r ∷ rs) = All (λ q. q.id ≢ r.id) rs × IsUnique rs

abbrev pub HasId : Text → List MessageRecord → Type 0
HasId id rs = (q : MessageRecord) × In q rs × (q.id ≡ id)

is_seen-All :
    (id : Text) (rs : List MessageRecord)
    → is_seen id (map (λ q. q.id) rs) ≡ false
    → All (λ q. id ≢ q.id) rs
unfolding is_seen
is_seen-All id [] h = tt
is_seen-All id (r ∷ rs) h = elim (text_discrete id r.id) [
  | yes e ↦ ground arith
  | no d ↦ (d, is_seen-All id rs (ground arith))
]

is_seen-HasId :
    (id : Text) (rs : List MessageRecord) → is_seen id (map (λ q. q.id) rs) ≡ true → HasId id rs
unfolding is_seen
is_seen-HasId id [] h = ground arith
is_seen-HasId id (r ∷ rs) h = elim (text_discrete id r.id) [
  | yes e ↦ (r, inl refl, sym e)
  | no d ↦ let (q, i, e) = is_seen-HasId id rs (ground arith) in (q, inr i, e)
]

append-IsUnique :
    (rs : List MessageRecord) (r : MessageRecord)
    → IsUnique rs
    → All (λ q. r.id ≢ q.id) rs
    → IsUnique (rs ++ r ∷ [])
append-IsUnique [] r u a = (tt, tt)
append-IsUnique (q ∷ rs) r u a =
    (All-append (λ p. p.id ≢ q.id) rs (r ∷ []) u.0 (a.0, tt), append-IsUnique rs r u.1 a.1)

add_unseen-IsUnique : (have rs : List MessageRecord) → IsUnique have → IsUnique (add_unseen have rs)
unfolding add_unseen
add_unseen-IsUnique have [] u = u
add_unseen-IsUnique have (r ∷ rs) u = elim (Bool-cases (is_seen r.id (map (λ q. q.id) have))) [
  | inl e ↦ rw e (add_unseen-IsUnique have rs u)
  | inr e ↦
      rw e (
        add_unseen-IsUnique (have ++ r ∷ []) rs
          (append-IsUnique have r u (is_seen-All r.id have e)))
]

HasId-add_unseen :
    (id : Text) (have rs : List MessageRecord) → HasId id have → HasId id (add_unseen have rs)
unfolding add_unseen
HasId-add_unseen id have [] h = h
HasId-add_unseen id have (r ∷ rs) (q, i, e) =
    elim (Bool-cases (is_seen r.id (map (λ q. q.id) have))) [
      | inl s ↦ rw s (HasId-add_unseen id have rs (q, i, e))
      | inr s ↦
          rw s (HasId-add_unseen id (have ++ r ∷ []) rs (q, In-append_left q have (r ∷ []) i, e))
    ]

add_unseen-HasId :
    (r : MessageRecord) (have rs : List MessageRecord) → In r rs → HasId r.id (add_unseen have rs)
unfolding add_unseen
add_unseen-HasId r have [] i = absurd i
add_unseen-HasId r have (q ∷ rs) (inr i) = elim (Bool-cases (is_seen q.id (map (λ q. q.id) have))) [
  | inl s ↦ rw s (add_unseen-HasId r have rs i)
  | inr s ↦ rw s (add_unseen-HasId r (have ++ q ∷ []) rs i)
]
add_unseen-HasId r have (q ∷ rs) (inl e) = elim (Bool-cases (is_seen q.id (map (λ q. q.id) have))) [
  | inl s ↦ rw s (
      HasId-add_unseen r.id have rs
        (is_seen-HasId r.id have (ap (λ x. is_seen x.id (map (λ q. q.id) have)) e ∙ s)))
  | inr s ↦ rw s (
      HasId-add_unseen r.id (have ++ q ∷ []) rs
        (q, In-append_right q have (q ∷ []) (inl refl), ap (λ x. x.id) (sym e)))
]

In-add_unseen :
    (r : MessageRecord) (have rs : List MessageRecord)
    → In r (add_unseen have rs)
    → In r have ⊎ In r rs
unfolding add_unseen
In-add_unseen r have [] = λ i. inl i
In-add_unseen r have (q ∷ rs) = elim (Bool-cases (is_seen q.id (map (λ q. q.id) have))) [
  | inl s ↦ rw s (λ i. elim (In-add_unseen r have rs i) [ inl j ↦ inl j | inr j ↦ inr (inr j) ])
  | inr s ↦ rw s (λ i. elim (In-add_unseen r (have ++ q ∷ []) rs i) [
    | inr j ↦ inr (inr j)
    | inl j ↦ elim (In-append_cases r have (q ∷ []) j) [
      | inl k ↦ inl k
      | inr k ↦ inr (elim k [ inl e ↦ inl e | inr x ↦ absurd x ])
    ]
  ])
]

-- What is asked for by address and by routing token is answered without repetition: no id occurs
-- twice in the answer, each record in it is one of either, and of each record of either the answer
-- has one of the same id.
pub fetch_records-IsUnique :
    (db : Db Json) (fresh : Text) (now : ℕ) (q : FetchRequest) (s : db.Store) (r : MessageRecord)
    → let either : List MessageRecord =
        messages_of db fresh now (text_if_any q.recipient) s
        ++ messages_of db fresh now (text_if_any q.routing_token) s in
      IsUnique (fetch_records db fresh now q s)
      × (In r (fetch_records db fresh now q s) → In r either)
      × (In r either → HasId r.id (fetch_records db fresh now q s))
unfolding fetch_records
fetch_records-IsUnique db fresh now q s r = (
  add_unseen-IsUnique (add_unseen [] xs) ys (add_unseen-IsUnique [] xs tt),
  (λ i. elim (In-add_unseen r (add_unseen [] xs) ys i) [
    | inr j ↦ In-append_right r xs ys j
    | inl j ↦ elim (In-add_unseen r [] xs j) [ inl k ↦ absurd k | inr k ↦ In-append_left r xs ys k ]
  ]),
  (λ i. elim (In-append_cases r xs ys i) [
    | inl j ↦ HasId-add_unseen r.id (add_unseen [] xs) ys (add_unseen-HasId r [] xs j)
    | inr j ↦ add_unseen-HasId r (add_unseen [] xs) ys j
  ]),
)
  where
    xs : List MessageRecord
    xs = messages_of db fresh now (text_if_any q.recipient) s

    ys : List MessageRecord
    ys = messages_of db fresh now (text_if_any q.routing_token) s

empty : {A : Type 0} (xs : List A) → ((x : A) → ¬ In x xs) → xs ≡ []
empty [] h = refl
empty (x ∷ xs) h = absurd (h x (inl refl))

-- A text without a colon, and two such parts of a key.
abbrev pub NoColon : Text → Type 0
NoColon t = All (λ c. c ≢ b':') t

before_colon-append :
    (t u : Text)
    → NoColon t
    → (before_colon (t ++ codes ":" ++ u) ≡ t) × (after_colon (t ++ codes ":" ++ u) ≡ u)
unfolding before_colon after_colon
before_colon-append [] u h = (refl, refl)
before_colon-append (c ∷ t) u h = ground (arith, h.0, before_colon-append t u h.1)

before_colon-NoColon : (t : Text) → NoColon t → before_colon t ≡ t
unfolding before_colon
before_colon-NoColon [] h = refl
before_colon-NoColon (c ∷ t) h = ground (arith, h.0, before_colon-NoColon t h.1)

-- A record stands under the key of its recipient and its id, which have no colon.
abbrev pub HasKey : Text → Json → Type 0
HasKey k v =
    (id : Text) × (v.id ≡ some id)
    × (id ≢ [])
    × NoColon id
    × NoColon v.recipient
    × (k ≡ message_key v.recipient id)

abbrev pub IsKeyed : (db : Db Json) → db.Store → Type 0
IsKeyed db s = (k : Text) (v : Json) → db.get k s ≡ some v → HasKey k v

module _ (db : Db Json) (laws : DbLaws db) where
  delete_stored_message_lem :
      (r : MessageRecord) (s : db.Store)
      → NoColon r.recipient
      → NoColon r.id
      → delete_stored_message db (stored_key r) s ≡ db.del (message_key r.recipient r.id) s
  unfolding delete_stored_message delete_message message_key
  delete_stored_message_lem r s h k =
      let e : before_colon (stored_key r) ≡ r.recipient =
        (before_colon-append r.recipient r.id h).0 in
      let f : before_colon (after_colon (stored_key r)) ≡ r.id =
        ap before_colon (before_colon-append r.recipient r.id h).1 ∙ before_colon-NoColon r.id k in
      cc

  get-delete_delivered_of :
      (k : Text) (v : Json) (rs : List MessageRecord) (s : db.Store)
      → db.get k (delete_delivered db rs s) ≡ some v
      → db.get k s ≡ some v
  unfolding delete_delivered delete_stored_message delete_message
  get-delete_delivered_of k v [] s h = h
  get-delete_delivered_of k v (r ∷ rs) s h =
      get-del_of laws k
        (message_key (before_colon (stored_key r)) (before_colon (after_colon (stored_key r)))) v s
        (get-delete_delivered_of k v rs (delete_stored_message db (stored_key r) s) h)

  get-delete_delivered :
      (r : MessageRecord) (v : Json) (rs : List MessageRecord) (s : db.Store)
      → In r rs
      → NoColon r.recipient
      → NoColon r.id
      → db.get (message_key r.recipient r.id) (delete_delivered db rs s) ≢ some v
  unfolding delete_delivered
  get-delete_delivered r v [] s i h k e = i
  get-delete_delivered r v (q ∷ rs) s (inr i) h k e =
      get-delete_delivered r v rs (delete_stored_message db (stored_key q) s) i h k e
  get-delete_delivered r v (q ∷ rs) s (inl p) h k e =
      let key : Text = message_key r.recipient r.id in
      let e1 : db.get key (delete_stored_message db (stored_key r) s) ≡ some v =
        subst (λ x. db.get key (delete_stored_message db (stored_key x) s) ≡ some v) (sym p)
          (get-delete_delivered_of key v rs (delete_stored_message db (stored_key q) s) e) in
      none-ne-some v (
        sym (get-del_self laws key s)
        ∙ ap (db.get key) (sym (delete_stored_message_lem r s h k))
        ∙ e1)

  not_left :
      (address fresh fresh' : Text) (now : ℕ) (s : db.Store) (x : MessageRecord)
      → IsKeyed db s
      → ¬ In x (
          get_messages db fresh' now address
            (delete_delivered db (get_messages db fresh now address s) s))
  unfolding message_record
  not_left address fresh fresh' now s x h i =
      let rs : List MessageRecord = get_messages db fresh now address s in
      let (k, v, g, (starts, e, alive)) =
        (In-get_messages db laws fresh' now address (delete_delivered db rs s) x).1.0 i in
      let g0 : db.get k s ≡ some v = get-delete_delivered_of k v rs s g in
      let (id, vid, ne, nc, nr, keq) = h k v g0 in
      let r0 : MessageRecord = message_record fresh now v in
      let eid : r0.id ≡ id = ap (λ o. text_or o fresh) vid ∙ text_or_lem id fresh ne in
      let i0 : In r0 rs =
        (In-get_messages db laws fresh now address s r0).1.1
          (k, v, g0, (starts, refl, subst (λ y. now ≤ y.expires) e alive)) in
      get-delete_delivered r0 v rs s i0 nr (subst NoColon (sym eid) nc) (
        ap (λ j. db.get j (delete_delivered db rs s))
          (sym (keq ∙ ap (message_key v.recipient) (sym eid)))
        ∙ g)

  -- A client that fetches its messages is sent all of them and has none left on the relay: what is
  -- under its address and not expired is in the answer, and then deleted, if every record stands
  -- under its key and no recipient and no id has a colon.
  pub handle_fetch_request-delivers :
      (a : ℕ) (address fresh fresh' : Text) (now : ℕ) (r : Relay db.Store)
      → IsKeyed db r.messages
      → let (r', answer) = handle_fetch_request db (some (some (a ∷ address))) fresh now r in
        (answer
          ≡ delivered (
              map
                (λ q. (q.message_data, q.timestamp))
                (get_messages db fresh now (a ∷ address) r.messages)))
        × (get_messages db fresh' now (a ∷ address) r'.messages ≡ [])
  unfolding handle_fetch_request deliver
  handle_fetch_request-delivers a address fresh fresh' now r h =
      let rs : List MessageRecord = get_messages db fresh now (a ∷ address) r.messages in
      (
        refl,
        empty (get_messages db fresh' now (a ∷ address) (delete_delivered db rs r.messages))
            (λ x. not_left (a ∷ address) fresh fresh' now r.messages x h),
      )
