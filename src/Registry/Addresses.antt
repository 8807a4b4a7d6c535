-- ===== src/Registry/Addresses.antt =====
-- src/registry/username-registry.js: what an address resolves to.
use chainmail_protocol.Base.{
  ◌≡◌, refl, ap, ◌∙◌, inl, inr, true, false, List, [], ◌∷◌, ◌++◌, Option, some, if◌then◌else◌, Text,
  codes, text_discrete, to_lower_case, starts_with, arith, holds_of,
}
use chainmail_protocol.Base.Database.{Db, DbLaws}
use chainmail_protocol.Registry.{
  Registration, Result, Resolved, direct, registered, ok, all_name_units, validate_username,
  before_at, includes_at, after_at, get_by_username, register, resolve,
}
use chainmail_protocol.Registry.Names.{
  Request, run, Result-cases, validate_lower-ok, get_by_username-register,
}

-- A name without `@`, followed by one.
before_at-append :
    (u d : Text) → all_name_units (to_lower_case u) ≡ true → before_at (u ++ b'@' ∷ d) ≡ u
unfolding before_at to_lower_case
before_at-append [] d h = refl
before_at-append (c ∷ u) d h = ground (arith, before_at-append u d)

after_at-append :
    (u d : Text) → all_name_units (to_lower_case u) ≡ true → after_at (u ++ b'@' ∷ d) ≡ before_at d
unfolding after_at to_lower_case
after_at-append [] d h = refl
after_at-append (c ∷ u) d h = ground (arith, after_at-append u d)

includes_at-append : (u d : Text) → includes_at (u ++ b'@' ∷ d) ≡ true
unfolding includes_at
includes_at-append [] d = refl
includes_at-append (c ∷ u) d = ground (arith, includes_at-append u d)

includes_at-name : (u : Text) → all_name_units (to_lower_case u) ≡ true → includes_at u ≡ false
unfolding includes_at to_lower_case
includes_at-name [] h = refl
includes_at-name (c ∷ u) h = ground (arith, includes_at-name u)

validate_username-named :
    (u name : Text) → validate_username u ≡ ok name → all_name_units (to_lower_case u) ≡ true
unfolding validate_username
validate_username-named [] name h = cc
validate_username-named (c ∷ u) name h =
    let (e, a) = validate_lower-ok (to_lower_case (c ∷ u)) name h in ap all_name_units e ∙ a

-- What `resolve` should answer for a registration, unless the address looks like a direct one.
abbrev pub direct_or : Text → Registration → Result Resolved
direct_or address r =
    if starts_with address (codes "dm1")
    then ok (direct address)
    else ok (registered r.dmail_address r.username r.email)

module _ (db : Db Registration) (laws : DbLaws db) (recover : Text → Text → Option Text)
    (domain : Text) where
  register-named :
      (r : Registration) (q : Request) (s : db.Store)
      → (register db recover domain q.username q.dmail_address q.wallet_address q.signature q.now
          s).1
        ≡ ok r
      → all_name_units (to_lower_case q.username) ≡ true
  unfolding register
  register-named r q s = elim (Result-cases (validate_username q.username)) [
    | inl (x, e) ↦ rw (e, register) (λ h. cc)
    | inr (name, e) ↦ λ h. validate_username-named q.username name e
  ]

  resolve-name :
      (u : Text) (r : Registration) (s : db.Store)
      → all_name_units (to_lower_case u) ≡ true
      → get_by_username db recover domain u s ≡ some r
      → resolve db recover domain u s ≡ direct_or u r
  unfolding resolve
  resolve-name u r s n g = rw (includes_at-name u n, g) refl

  resolve-email :
      (u : Text) (r : Registration) (s : db.Store)
      → all_name_units (to_lower_case u) ≡ true
      → before_at domain ≡ domain
      → get_by_username db recover domain u s ≡ some r
      → resolve db recover domain (u ++ b'@' ∷ domain) s ≡ direct_or (u ++ b'@' ∷ domain) r
  unfolding resolve
  resolve-email u r s n d g =
      rw
        (
          includes_at-append u domain,
          before_at-append u domain n,
          holds_of (text_discrete (after_at (u ++ b'@' ∷ domain)) domain)
              (after_at-append u domain n ∙ d),
          g,
        )
        refl

  -- A registered username, alone or with the domain of the registry behind it, resolves to what it was
  -- registered for, whatever registrations are asked for afterwards, if the domain has no `@`; but if
  -- it begins with `dm1`, it is answered as if it were itself the address of a recipient.
  pub resolve-register :
      (r : Registration) (q : Request) (s : db.Store) (qs : List Request)
      → before_at domain ≡ domain
      → (register db recover domain q.username q.dmail_address q.wallet_address q.signature q.now
          s).1
        ≡ ok r
      → (let s' =
            run db laws recover domain
              (register db recover domain q.username q.dmail_address q.wallet_address q.signature
                q.now s).0
              qs in
          (resolve db recover domain q.username s' ≡ direct_or q.username r)
          × (resolve db recover domain (q.username ++ b'@' ∷ domain) s'
              ≡ direct_or (q.username ++ b'@' ∷ domain) r))
  resolve-register r q s qs d h =
      let s' : db.Store =
        run db laws recover domain
          (register db recover domain q.username q.dmail_address q.wallet_address q.signature q.now
            s).0
          qs in
      let g = get_by_username-register db laws recover domain r q s qs h in
      let n = register-named r q s h in
      (resolve-name q.username r s' n g, resolve-email q.username r s' n d g)
