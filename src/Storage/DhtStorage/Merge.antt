-- ===== src/Storage/DhtStorage/Merge.antt =====
-- src/storage/dht-storage.js: the records that several nodes answer with, and their proofs.
use chainmail_protocol.Base.{
  ℕ, ◌+◌, ◌≤◌, ◌≡◌, refl, ap, sym, subst, ◌∙◌, inl, inr, List, [], ◌∷◌, ◌++◌, Option, none, some,
  ltb, Text, text_discrete, arith, length, map, Bool-cases, Option-cases,
}
use chainmail_protocol.Base.Dict.{Dict, In, get, set, text_key, get-set_self, get-set_ne}
use chainmail_protocol.Crypto.{Encodings}
use chainmail_protocol.Storage.DhtStorage.{
  MessageRecord, StorageProof, Signer, hash_of, create_proof, add_proof, prove, count_proofs,
  verify_proofs, keep_better, merge, set_all, merge_answers, fetch_from_network,
}

abbrev or_empty : Option (List MessageRecord) → List MessageRecord
or_empty none = []
or_empty (some rs) = rs

-- The map has a record of that id with at least that many replicas.
abbrev pub Covers : Text → ℕ → Dict Text MessageRecord → Type 0
Covers id n m = (r : MessageRecord) × (get id m ≡ some r) × (n ≤ r.replication_count)

keep_better-Covers :
    (id : Text) (n : ℕ) (r : MessageRecord) (m : Dict Text MessageRecord)
    → Covers id n m
    → Covers id n (keep_better (get r.id m) r m)
keep_better-Covers id n r m (q, g, h) = elim (text_discrete id r.id) [
  | yes p ↦
      rw (ap (λ k. get k m) (sym p) ∙ g)
        (elim (Bool-cases (ltb q.replication_count r.replication_count)) [
          | inl e ↦ rw e (r, ap (λ k. get k (set r.id r m)) p ∙ get-set_self r.id r m, ground arith)
          | inr e ↦ rw e (q, g, h)
        ])
  | no p ↦ elim (Option-cases (get r.id m)) [
    | inl e ↦ rw e (q, get-set_ne r.id id r m p ∙ g, h)
    | inr (o, e) ↦ rw e (elim (Bool-cases (ltb o.replication_count r.replication_count)) [
      | inl x ↦ rw x (q, get-set_ne r.id id r m p ∙ g, h)
      | inr x ↦ rw x (q, g, h)
    ])
  ]
]

keep_better_self :
    (r : MessageRecord) (m : Dict Text MessageRecord)
    → Covers r.id r.replication_count (keep_better (get r.id m) r m)
keep_better_self r m = elim (Option-cases (get r.id m)) [
  | inl e ↦ rw e (r, get-set_self r.id r m, omega arith)
  | inr (o, e) ↦ rw e (elim (Bool-cases (ltb o.replication_count r.replication_count)) [
    | inl x ↦ rw x (r, get-set_self r.id r m, omega arith)
    | inr x ↦ rw x (o, e, ground arith)
  ])
]

merge-Covers :
    (id : Text) (n : ℕ) (rs : List MessageRecord) (m : Dict Text MessageRecord)
    → Covers id n m
    → Covers id n (merge rs m)
unfolding merge
merge-Covers id n [] m h = h
merge-Covers id n (r ∷ rs) m h =
    merge-Covers id n rs (keep_better (get r.id m) r m) (keep_better-Covers id n r m h)

merge-In :
    (r : MessageRecord) (rs : List MessageRecord) (m : Dict Text MessageRecord)
    → In r rs
    → Covers r.id r.replication_count (merge rs m)
unfolding merge
merge-In r [] m i = absurd i
merge-In r (q ∷ rs) m (inr i) = merge-In r rs (keep_better (get q.id m) q m) i
merge-In r (q ∷ rs) m (inl e) =
    merge-Covers r.id r.replication_count rs (keep_better (get q.id m) q m) (
      subst (λ x. Covers x.id x.replication_count (keep_better (get q.id m) q m)) (sym e)
        (keep_better_self q m))

merge_answers-Covers :
    (id : Text) (n : ℕ) (answers : List (Option (List MessageRecord))) (m : Dict Text MessageRecord)
    → Covers id n m
    → Covers id n (merge_answers answers m)
unfolding merge_answers
merge_answers-Covers id n [] m h = h
merge_answers-Covers id n (none ∷ rest) m h = merge_answers-Covers id n rest m h
merge_answers-Covers id n (some rs ∷ rest) m h =
    merge_answers-Covers id n rest (merge rs m) (merge-Covers id n rs m h)

merge_answers-In :
    (r : MessageRecord) (rs : List MessageRecord) (answers : List (Option (List MessageRecord)))
    (m : Dict Text MessageRecord)
    → In (some rs) answers
    → In r rs
    → Covers r.id r.replication_count (merge_answers answers m)
unfolding merge_answers
merge_answers-In r rs [] m i j = absurd i
merge_answers-In r rs (none ∷ rest) m (inl e) j = cc
merge_answers-In r rs (none ∷ rest) m (inr i) j = merge_answers-In r rs rest m i j
merge_answers-In r rs (some qs ∷ rest) m (inr i) j = merge_answers-In r rs rest (merge qs m) i j
merge_answers-In r rs (some qs ∷ rest) m (inl e) j =
    merge_answers-Covers r.id r.replication_count rest (merge qs m)
      (merge-In r qs m (subst (λ o. In r (or_empty o)) e j))

In-values :
    (id : Text) (m : Dict Text MessageRecord) (r : MessageRecord)
    → get id m ≡ some r
    → In r (map (λ e. e.1) m)
unfolding get
In-values id [] r g = cc
In-values id ((j, v) ∷ m) r g = elim (text_discrete id j) [
  | yes p ↦ inl (ground arith)
  | no p ↦ inr (In-values id m r (ground arith))
]

-- Of every message that some node answers with, the result has a record of its id with at least as
-- many replicas, whatever the node holds itself and whichever nodes fail.
pub fetch_from_network-In :
    (own : List MessageRecord) (answers : List (Option (List MessageRecord)))
    (rs : List MessageRecord) (r : MessageRecord)
    → In (some rs) answers
    → In r rs
    → (q : MessageRecord) × In q (fetch_from_network own answers)
      × (r.replication_count ≤ q.replication_count)
unfolding fetch_from_network
fetch_from_network-In own answers rs r i j =
    let (q, g, h) = merge_answers-In r rs answers (set_all own []) i j in
    (q, In-values r.id (merge_answers answers (set_all own [])) q g, h)

module _ (c : Encodings) where
  -- A proof that a node adds is counted as valid, and no other proof changes its count.
  count_proofs-append :
      (expected : Text) (ps : List StorageProof) (p : StorageProof)
      → p.message_hash ≡ expected
      → count_proofs c expected (ps ++ p ∷ [])
        ≡ ((count_proofs c expected ps).0 + 1, (count_proofs c expected ps).1)
  unfolding count_proofs
  count_proofs-append expected [] p h = ground arith
  count_proofs-append expected (q ∷ ps) p h = ground (arith, count_proofs-append expected ps p h)

  -- A record passes through signing nodes, each of which stores it with its proof.
  abbrev pub relay_through : List (Signer × ℕ) → MessageRecord → MessageRecord
  relay_through [] r = r
  relay_through ((signer, now) ∷ ns) r = relay_through ns (prove c (some signer) now r)

  -- Every node that a record passes through adds one valid proof, and no invalid one.
  pub verify_proofs-prove :
      (ns : List (Signer × ℕ)) (r : MessageRecord)
      → verify_proofs c (relay_through ns r)
        ≡ ((verify_proofs c r).0 + length ns, (verify_proofs c r).1)
  unfolding verify_proofs prove add_proof create_proof hash_of
  verify_proofs-prove [] r = ap (λ n. (n, (verify_proofs c r).1)) (omega arith)
  verify_proofs-prove ((signer, now) ∷ ns) r = ground (
    arith,
    verify_proofs-prove ns (prove c (some signer) now r),
    count_proofs-append (hash_of c (c.from_base64 r.message_data)) r.storage_proofs
        (create_proof c signer (c.from_base64 r.message_data) now) refl,
  )
