-- ===== src/Tests/Entries.antt =====
-- A database that is a list of entries.
use chainmail_protocol.Base.{
  ◌≡◌, ap, sym, ◌∙◌, inl, inr, List, [], ◌∷◌, Option, none, some, Text, Option-cases,
}
use chainmail_protocol.Base.Database.{Db, DbLaws}
use chainmail_protocol.Base.Dict.{
  Dict, In, get, set, delete, keys, text_key, get-set, get-delete, In-keys,
}

module _ {V : Type 0} where
  abbrev pub add_entry : Text → Option V → List (Text × V) → List (Text × V)
  add_entry k none es = es
  add_entry k (some v) es = (k, v) ∷ es

  abbrev pub entries : List Text → Dict Text V → List (Text × V)
  entries [] s = []
  entries (k ∷ ks) s = add_entry k (get k s) (entries ks s)

  abbrev pub entry_list : Db V
  entry_list = record {
    Store = Dict Text V;
    get = get;
    put = set;
    del = delete;
    iterator = λ s. entries (keys s) s;
  }

  entries-In :
      (k : Text) (v : V) (ks : List Text) (s : Dict Text V)
      → In (k, v) (entries ks s)
      → get k s ≡ some v
  entries-In k v [] s = λ i. absurd i
  entries-In k v (j ∷ ks) s = elim (Option-cases (get j s)) [
    | inl e ↦ rw e (λ i. entries-In k v ks s i)
    | inr (w, e) ↦ rw e (λ i. elim i [
      | inl q ↦ ap (λ x. get x.0 s) q ∙ e ∙ ap (λ x. some x.1) (sym q)
      | inr i' ↦ entries-In k v ks s i'
    ])
  ]

  In-entries :
      (k : Text) (v : V) (ks : List Text) (s : Dict Text V)
      → get k s ≡ some v
      → In k ks
      → In (k, v) (entries ks s)
  In-entries k v [] s g i = absurd i
  In-entries k v (j ∷ ks) s g (inl q) =
      rw (ap (λ x. get x s) (sym q) ∙ g) (inl (ap (λ x. (x, v)) q))
  In-entries k v (j ∷ ks) s g (inr i) = elim (Option-cases (get j s)) [
    | inl e ↦ rw e (In-entries k v ks s g i)
    | inr (w, e) ↦ rw e (inr (In-entries k v ks s g i))
  ]

  pub entry_list_laws : DbLaws entry_list
  entry_list_laws = record {
    get-put = λ j k v s. get-set k j v s;
    get-del = λ j k s. get-delete k j s;
    In-iterator =
        λ k v s. (entries-In k v (keys s) s, (λ g. In-entries k v (keys s) s g (In-keys s k v g)));
  }
