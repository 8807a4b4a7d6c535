-- ===== src/Registry/Names.antt =====
-- src/registry/username-registry.js: who holds a username.
use chainmail_protocol.Base.{
  ℕ, ◌≡◌, ◌≢◌, refl, ap, sym, ◌∙◌, ◌⊎◌, inl, inr, true, List, [], ◌∷◌, ◌++◌, Option, none, some,
  Text, codes, text_discrete, to_lower_case, to_lower_case_idem, arith, Bool-cases, Option-cases,
  holds,
}
use chainmail_protocol.Base.Database.{Db, DbLaws}
use chainmail_protocol.Registry.{
  Registration, Result, Error, reserved_usernames, registration_message, ok, err, all_name_units,
  matches_username, validate_lower, validate_username, before_at, user_key, get_by_username,
  put_all, register_as, register, registration, is_among,
}

before_at-all_name_units : (t : Text) → all_name_units t ≡ true → before_at t ≡ t
unfolding before_at
before_at-all_name_units [] h = refl
before_at-all_name_units (c ∷ s) h = ground (arith, before_at-all_name_units s)

matches_username-all_name_units : (t : Text) → matches_username t ≡ true → all_name_units t ≡ true
unfolding matches_username
matches_username-all_name_units [] h = refl
matches_username-all_name_units (c ∷ s) h = ground arith

pub validate_lower-ok :
    (lower name : Text)
    → validate_lower lower ≡ ok name
    → (lower ≡ name) × (all_name_units name ≡ true)
unfolding validate_lower
validate_lower-ok lower name h = elim (Bool-cases (matches_username lower)) [
  | inl e ↦ elim (Bool-cases (is_among lower reserved_usernames)) [
    | inl x ↦ ground arith
    | inr x ↦ ground (arith, matches_username-all_name_units lower e)
  ]
  | inr e ↦ ground arith
]

pub Result-cases :
    {A : Type 0} (x : Result A) → ((e : Error) × (x ≡ err e)) ⊎ ((a : A) × (x ≡ ok a))
Result-cases (err e) = inl (e, refl)
Result-cases (ok a) = inr (a, refl)

-- A valid name is its own normal form.
pub validate_username-ok :
    (username name : Text)
    → validate_username username ≡ ok name
    → before_at (to_lower_case name) ≡ name
unfolding validate_username
validate_username-ok [] name h = cc
validate_username-ok (c ∷ s) name h =
    let (e, a) = validate_lower-ok (to_lower_case (c ∷ s)) name h in
    ap (λ t. before_at (to_lower_case t)) (sym e)
    ∙ ap before_at (to_lower_case_idem (c ∷ s) ∙ e)
    ∙ before_at-all_name_units name a

validate_username_lower :
    (username name : Text)
    → validate_username username ≡ ok name
    → before_at (to_lower_case username) ≡ name
unfolding validate_username
validate_username_lower [] name h = cc
validate_username_lower (c ∷ s) name h =
    let (e, a) = validate_lower-ok (to_lower_case (c ∷ s)) name h in
    ap before_at e ∙ before_at-all_name_units name a

pub record Request : Type 0 where
  pub username : Text
  pub dmail_address : Text
  pub wallet_address : Text
  pub signature : Text
  pub now : ℕ

module _ (db : Db Registration) (laws : DbLaws db) (recover : Text → Text → Option Text)
    (domain : Text) where
  unfoldable pub run : db.Store → List Request → db.Store
  run s [] = s
  run s (q ∷ qs) =
      run
        (register db recover domain q.username q.dmail_address q.wallet_address q.signature q.now
          s).0
        qs

  get-put_all :
      (name : Text) (r : Registration) (s : db.Store)
      → name ≢ r.username
      → db.get (user_key name) (put_all db recover domain r s) ≡ db.get (user_key name) s
  unfolding put_all
  get-put_all name r s h = ground (
    arith,
    laws.get-put (user_key name) (codes "wallet:" ++ r.wallet_address) r
        (db.put (codes "dmail:" ++ r.dmail_address) r (db.put (user_key r.username) r s)),
    laws.get-put (user_key name) (codes "dmail:" ++ r.dmail_address) r
        (db.put (user_key r.username) r s),
    laws.get-put (user_key name) (user_key r.username) r s,
  )

  some_ne_none : (r : Registration) → some r ≢ none
  some_ne_none r h = cc

  get-register_as :
      (username name : Text) (r : Registration) (q : Request) (s : db.Store)
      → before_at (to_lower_case name) ≡ name
      → get_by_username db recover domain username s ≡ some r
      → get_by_username db recover domain username
          (register_as db recover domain name q.dmail_address q.wallet_address q.signature q.now
            s).0
        ≡ some r
  unfolding get_by_username register_as
  get-register_as username name r q s n g =
      elim (Option-cases (get_by_username db recover domain name s)) [
        | inr (o, e) ↦ rw (e, register_as) g
        | inl e ↦
            rw (e, register_as)
              (elim (Option-cases (
                recover (registration_message db recover domain name q.dmail_address)
                  q.signature)) [
                    | inl x ↦ rw x g
                    | inr (a, x) ↦
                        rw x
                          (elim (Bool-cases (
                            holds
                              (text_discrete (to_lower_case a) (to_lower_case q.wallet_address)))) [
                                | inr b ↦ rw b g
                                | inl b ↦ rw b (
                                    get-put_all (before_at (to_lower_case username))
                                      (registration db recover domain name q.dmail_address
                                        q.wallet_address q.now)
                                      s
                                      (λ k. absurd (
                                        some_ne_none r (
                                          sym g ∙ ap (λ t. db.get (user_key t) s) (k ∙ sym n) ∙ e)))
                                    ∙ g)
                              ])
                  ])
      ]

  get-register :
      (username : Text) (r : Registration) (q : Request) (s : db.Store)
      → get_by_username db recover domain username s ≡ some r
      → get_by_username db recover domain username
          (register db recover domain q.username q.dmail_address q.wallet_address q.signature q.now
            s).0
        ≡ some r
  unfolding get_by_username register
  get-register username r q s g = elim (Result-cases (validate_username q.username)) [
    | inl (x, e) ↦ rw (e, register) g
    | inr (name, e) ↦
        rw (e, register)
          (get-register_as username name r q s (validate_username-ok q.username name e) g)
  ]

  get_by_username-run :
      (username : Text) (r : Registration) (s : db.Store) (qs : List Request)
      → get_by_username db recover domain username s ≡ some r
      → get_by_username db recover domain username (run s qs) ≡ some r
  unfolding run
  get_by_username-run username r s [] g = g
  get_by_username-run username r s (q ∷ qs) g =
      get_by_username-run username r
        (register db recover domain q.username q.dmail_address q.wallet_address q.signature q.now
          s).0
        qs (get-register username r q s g)

  get-put_all_self :
      (r : Registration) (s : db.Store)
      → db.get (user_key r.username) (put_all db recover domain r s) ≡ some r
  unfolding put_all
  get-put_all_self r s = ground (
    arith,
    laws.get-put (user_key r.username) (codes "wallet:" ++ r.wallet_address) r
        (db.put (codes "dmail:" ++ r.dmail_address) r (db.put (user_key r.username) r s)),
    laws.get-put (user_key r.username) (codes "dmail:" ++ r.dmail_address) r
        (db.put (user_key r.username) r s),
    laws.get-put (user_key r.username) (user_key r.username) r s,
  )

  register_as-ok :
      (name : Text) (r : Registration) (q : Request) (s : db.Store)
      → (register_as db recover domain name q.dmail_address q.wallet_address q.signature q.now s).1
        ≡ ok r
      → db.get
          (user_key name)
          (register_as db recover domain name q.dmail_address q.wallet_address q.signature q.now
            s).0
        ≡ some r
  unfolding register_as
  register_as-ok name r q s = elim (Option-cases (get_by_username db recover domain name s)) [
    | inr (o, e) ↦ rw (e, register_as) (λ h. cc)
    | inl e ↦
        rw (e, register_as)
          (elim (Option-cases
            (recover (registration_message db recover domain name q.dmail_address) q.signature)) [
              | inl x ↦ rw x (λ h. cc)
              | inr (a, x) ↦
                  rw x
                    (elim (Bool-cases
                      (holds (text_discrete (to_lower_case a) (to_lower_case q.wallet_address)))) [
                        | inr b ↦ rw b (λ h. cc)
                        | inl b ↦ rw b (λ h.
                            get-put_all_self
                              (registration db recover domain name q.dmail_address q.wallet_address
                                q.now)
                              s
                            ∙ cc)
                      ])
            ])
  ]

  get-register_ok :
      (r : Registration) (q : Request) (s : db.Store)
      → (register db recover domain q.username q.dmail_address q.wallet_address q.signature q.now
          s).1
        ≡ ok r
      → get_by_username db recover domain q.username
          (register db recover domain q.username q.dmail_address q.wallet_address q.signature q.now
            s).0
        ≡ some r
  unfolding get_by_username register
  get-register_ok r q s = elim (Result-cases (validate_username q.username)) [
    | inl (x, e) ↦ rw (e, register) (λ h. cc)
    | inr (name, e) ↦
        rw (validate_username_lower q.username name e, get_by_username)
          (rw (e, register) (register_as-ok name r q s))
  ]

  -- A username that is registered is found under the username as it was asked for, and stays with
  -- whom it was registered for, whatever registrations are asked for afterwards.
  pub get_by_username-register :
      (r : Registration) (q : Request) (s : db.Store) (qs : List Request)
      → (register db recover domain q.username q.dmail_address q.wallet_address q.signature q.now
          s).1
        ≡ ok r
      → get_by_username db recover domain q.username (
          run
            (register db recover domain q.username q.dmail_address q.wallet_address q.signature
              q.now s).0
            qs)
        ≡ some r
  get_by_username-register r q s qs h =
      get_by_username-run q.username r
        (register db recover domain q.username q.dmail_address q.wallet_address q.signature q.now
          s).0
        qs (get-register_ok r q s h)
