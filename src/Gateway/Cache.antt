-- ===== src/Gateway/Cache.antt =====
-- src/gateway/smtp-gateway.js: the addresses in memory against those of the database.
use chainmail_protocol.Base.{
  append-drop, ℕ, ◌≡◌, refl, ap, sym, ◌∙◌, inl, inr, List, [], ◌∷◌, Option, none, some,
  if◌then◌else◌, Text, Bytes, codes, to_lower_case, text_discrete, holds, drop, starts_with,
  Bool-cases,
}
use chainmail_protocol.Base.Database.{Db, DbLaws, get-put_self, get-put_ne, none-ne-some}
use chainmail_protocol.Base.Dict.{Dict, In, text_key, get, set, get-set_self, get-set_ne}
use chainmail_protocol.Crypto.{Signing}
use chainmail_protocol.Crypto.Identity.{address_to_public_key}
use chainmail_protocol.Gateway.{
  Mapping, addr_key, set_mappings, Gateway, keep_valid, register_address, known_or_found,
  get_dmail_address, load_address_mappings, on_rcpt_to, Answer, answer, relay_not_allowed,
}
use chainmail_protocol.Registry.{before_at, after_at}

pub data Call : Type 0 where
  registers : Text → Text → ℕ → Call
  looks_up : Text → Call
  receives : Text → Call
  loads : Call
  restarts : Call

abbrev pub mapped : Option Mapping → Option Text
mapped none = none
mapped (some r) = some r.dmail_address

addr_key-injective : (j k : Text) → addr_key j ≡ addr_key k → j ≡ k
addr_key-injective j k h = ap (drop 5) h

module _ (g : Signing) (db : Db Mapping) (laws : DbLaws db) (domain : Text) where
  -- What is in memory is what the database has.
  abbrev pub IsCoherent : Gateway g db domain → Type 0
  IsCoherent t = (k a : Text) → get k t.0 ≡ some a → mapped (db.get (addr_key k) t.1) ≡ some a

  set-IsCoherent :
      (k a : Text) (m : Dict Text Text) (s : db.Store)
      → mapped (db.get (addr_key k) s) ≡ some a
      → IsCoherent (m, s)
      → IsCoherent (set k a m, s)
  set-IsCoherent k a m s h i j b e = elim (text_discrete j k) [
    | yes q ↦
        ap (λ x. mapped (db.get (addr_key x) s)) q
        ∙ h
        ∙ sym (get-set_self k a m)
        ∙ ap (λ x. get x (set k a m)) (sym q)
        ∙ e
    | no d ↦ i j b (sym (get-set_ne k j a m d) ∙ e)
  ]

  put-IsCoherent :
      (k : Text) (r : Mapping) (m : Dict Text Text) (s : db.Store)
      → IsCoherent (m, s)
      → IsCoherent (set k r.dmail_address m, db.put (addr_key k) r s)
  put-IsCoherent k r m s i j b e = elim (text_discrete j k) [
    | yes q ↦
        ap (λ x. mapped (db.get (addr_key x) (db.put (addr_key k) r s))) q
        ∙ ap mapped (get-put_self laws (addr_key k) r s)
        ∙ sym (get-set_self k r.dmail_address m)
        ∙ ap (λ x. get x (set k r.dmail_address m)) (sym q)
        ∙ e
    | no d ↦
        ap mapped
          (get-put_ne laws (addr_key j) (addr_key k) r s (λ h. d (addr_key-injective j k h)))
        ∙ i j b (sym (get-set_ne k j r.dmail_address m d) ∙ e)
  ]

  keep_valid-IsCoherent :
      (local_part dmail : Text) (now : ℕ) (o : Option Bytes) (t : Gateway g db domain)
      → IsCoherent t
      → IsCoherent (keep_valid g db domain local_part dmail now o t).0
  keep_valid-IsCoherent local_part dmail now none t i = i
  keep_valid-IsCoherent local_part dmail now (some key) t i =
      put-IsCoherent (to_lower_case local_part)
        (record { dmail_address = dmail; registered_at = now }) t.0 t.1 i

  -- A lookup answers what the database has, and keeps what it finds.
  known_or_found-mapped :
      (k : Text) (o : Option Text) (f : Option Mapping) (t : Gateway g db domain)
      → get k t.0 ≡ o
      → db.get (addr_key k) t.1 ≡ f
      → IsCoherent t
      → IsCoherent (known_or_found g db domain k o t).0
        × ((known_or_found g db domain k o t).1 ≡ mapped (db.get (addr_key k) t.1))
  known_or_found-mapped k (some a) f t e h i = (i, sym (i k a e))
  known_or_found-mapped k none none t e h i = rw h (i, refl)
  known_or_found-mapped k none (some r) t e h i =
      rw h (set-IsCoherent k r.dmail_address t.0 t.1 (ap mapped h) i, refl)

  get_dmail_address-mapped :
      (local_part : Text) (t : Gateway g db domain)
      → IsCoherent t
      → IsCoherent (get_dmail_address g db domain local_part t).0
        × ((get_dmail_address g db domain local_part t).1
            ≡ mapped (db.get (addr_key (to_lower_case local_part)) t.1))
  unfolding get_dmail_address
  get_dmail_address-mapped local_part t i =
      known_or_found-mapped (to_lower_case local_part) (get (to_lower_case local_part) t.0)
        (db.get (addr_key (to_lower_case local_part)) t.1) t refl refl i

  set_mappings-IsCoherent :
      (es : List (Text × Mapping)) (m : Dict Text Text) (s : db.Store)
      → ((k : Text) (v : Mapping) → In (k, v) es → db.get k s ≡ some v)
      → IsCoherent (m, s)
      → IsCoherent (set_mappings es m, s)
  unfolding set_mappings
  set_mappings-IsCoherent [] m s h i = i
  set_mappings-IsCoherent ((k, v) ∷ es) m s h i =
      elim (Bool-cases (starts_with k (codes "addr:"))) [
        | inl e ↦ rw e (
            set_mappings-IsCoherent es (set (drop 5 k) v.dmail_address m) s (λ j w n. h j w (inr n))
              (set-IsCoherent (drop 5 k) v.dmail_address m s
                (ap (λ x. mapped (db.get x s)) (append-drop (codes "addr:") k e)
                  ∙ ap mapped (h k v (inl refl)))
                i))
        | inr e ↦ rw e (set_mappings-IsCoherent es m s (λ j w n. h j w (inr n)) i)
      ]

  unfoldable pub step : Gateway g db domain → Call → Gateway g db domain
  step t (registers local_part dmail now) = (register_address g db domain local_part dmail now t).0
  step t (looks_up local_part) = (get_dmail_address g db domain local_part t).0
  step t (receives address) = (on_rcpt_to g db domain address t).0
  step t loads = load_address_mappings g db domain t
  step t restarts = ([], t.1)

  unfoldable pub run : Gateway g db domain → List Call → Gateway g db domain
  unfolding step
  run t [] = t
  run t (x ∷ xs) = run (step t x) xs

  -- A recipient is answered by what the database has.
  abbrev pub expected : Text → db.Store → Answer
  expected address s =
      let email : Text = to_lower_case address in
      let found = mapped (db.get (addr_key (to_lower_case (before_at email))) s) in
      if holds (text_discrete (after_at email) domain)
      then answer g db domain email found
      else relay_not_allowed

  on_rcpt_to-expected :
      (address : Text) (t : Gateway g db domain)
      → IsCoherent t
      → IsCoherent (on_rcpt_to g db domain address t).0
        × ((on_rcpt_to g db domain address t).1 ≡ expected address t.1)
  unfolding on_rcpt_to
  on_rcpt_to-expected address t i =
      let (kept, found) = get_dmail_address-mapped (before_at (to_lower_case address)) t i in
      elim (Bool-cases (holds (text_discrete (after_at (to_lower_case address)) domain))) [
        | inl e ↦ rw (e, on_rcpt_to) (kept, ap (answer g db domain (to_lower_case address)) found)
        | inr e ↦ rw (e, on_rcpt_to) (i, refl)
      ]

  step-IsCoherent : (x : Call) (t : Gateway g db domain) → IsCoherent t → IsCoherent (step t x)
  unfolding step register_address load_address_mappings get
  step-IsCoherent (registers local_part dmail now) t i =
      keep_valid-IsCoherent local_part dmail now (address_to_public_key g dmail) t i
  step-IsCoherent (looks_up local_part) t i = (get_dmail_address-mapped local_part t i).0
  step-IsCoherent (receives address) t i = (on_rcpt_to-expected address t i).0
  step-IsCoherent loads t i =
      set_mappings-IsCoherent (db.iterator t.1) t.0 t.1 (λ k v n. (laws.In-iterator k v t.1).0 n) i
  step-IsCoherent restarts t i = λ k a e. absurd (none-ne-some a e)

  run-IsCoherent : (xs : List Call) (t : Gateway g db domain) → IsCoherent t → IsCoherent (run t xs)
  unfolding run
  run-IsCoherent [] t i = i
  run-IsCoherent (x ∷ xs) t i = run-IsCoherent xs (step t x) (step-IsCoherent x t i)

  -- The addresses in memory make no difference: whatever was registered, looked up, received, loaded
  -- and restarted before, a recipient is accepted exactly with the address that the database has for
  -- the local part of the domain of the gateway, and nothing is relayed for another domain.
  pub on_rcpt_to-run :
      (address : Text) (xs : List Call) (s : db.Store)
      → (on_rcpt_to g db domain address (run ([], s) xs)).1 ≡ expected address (run ([], s) xs).1
  unfolding get
  on_rcpt_to-run address xs s =
      (on_rcpt_to-expected address (run ([], s) xs)
        (run-IsCoherent xs ([], s) (λ k a e. absurd (none-ne-some a e)))).1
