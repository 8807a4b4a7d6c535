-- ===== src/Registry.antt =====
-- src/registry/username-registry.js: usernames for the addresses of dMail.
use chainmail_protocol.Base.{
  ℕ, ◌≡◌, Bool, true, false, not, ◌&&◌, ◌||◌, List, [], ◌∷◌, ◌++◌, Option, none, some, ite,
  if◌then◌else◌, leb, ◌==◌, Text, codes, text_discrete, starts_with, to_lower_case, length, holds,
}
use chainmail_protocol.Base.Database.{Db}
pub mod Names
pub mod Addresses

pub record Registration : Type 0 where
  pub username : Text
  pub email : Text
  pub dmail_address : Text
  pub wallet_address : Text
  pub registered_at : ℕ
  pub verified : Bool

pub data Error : Type 0 where
  username_required : Error
  bad_format : Error
  reserved : Error
  taken : Error
  bad_signature : Error
  unknown_address : Error

pub data Result (A : Type 0) : Type 0 where
  ok : A → Result A
  err : Error → Result A

abbrev pub is_between : Text → Text → ℕ → Bool
is_between (a ∷ _) (z ∷ _) c = leb a c && leb c z
is_between _ _ c = false

-- `[a-z0-9]` and `[a-z0-9._-]` on a lower-case unit.
abbrev pub is_first_unit : ℕ → Bool
is_first_unit c = is_between (codes "a") (codes "z") c || is_between (codes "0") (codes "9") c

abbrev pub is_name_unit : ℕ → Bool
is_name_unit c = is_first_unit c || ((c == b'.') || ((c == b'_') || (c == b'-')))

abbrev pub all_name_units : Text → Bool
all_name_units [] = true
all_name_units (c ∷ s) = is_name_unit c && all_name_units s

unfoldable pub matches_username : Text → Bool
matches_username [] = false
matches_username (c ∷ s) =
    is_first_unit c && (all_name_units s && (leb 2 (length s) && leb (length s) 29))

abbrev pub reserved_usernames : List Text
reserved_usernames =
    codes "admin"
    ∷ codes "support"
    ∷ codes "help"
    ∷ codes "info"
    ∷ codes "contact"
    ∷ codes "root"
    ∷ codes "system"
    ∷ codes "dmail"
    ∷ []

unfoldable pub is_among : Text → List Text → Bool
is_among t [] = false
is_among t (u ∷ us) = if holds (text_discrete t u) then true else is_among t us

unfoldable pub validate_lower : Text → Result Text
unfolding matches_username is_among
validate_lower lower =
    if not (matches_username lower)
    then err bad_format
    else (if is_among lower reserved_usernames then err reserved else ok lower)

unfoldable pub validate_username : Text → Result Text
unfolding validate_lower
validate_username [] = err username_required
validate_username (c ∷ s) = validate_lower (to_lower_case (c ∷ s))

-- `split('@')[0]`.
unfoldable pub before_at : Text → Text
before_at [] = []
before_at (c ∷ s) = if c == b'@' then [] else c ∷ before_at s

unfoldable pub includes_at : Text → Bool
includes_at [] = false
includes_at (c ∷ s) = if c == b'@' then true else includes_at s

-- What follows the first `@`, up to the next.
unfoldable pub after_at : Text → Text
unfolding before_at
after_at [] = []
after_at (c ∷ s) = if c == b'@' then before_at s else after_at s

-- A direct address, or the address, the username and the email of a registration.
pub data Resolved : Type 0 where
  direct : Text → Resolved
  registered : Text → Text → Text → Resolved

abbrev pub user_key : Text → Text
user_key name = codes "user:" ++ name

-- The registry of a domain; `recover message signature` is `ethers.verifyMessage`, `none` a throw.
module _ (db : Db Registration) (recover : Text → Text → Option Text) (domain : Text) where
  unfoldable pub get_by_username : Text → db.Store → Option Registration
  unfolding before_at
  get_by_username username s = db.get (user_key (before_at (to_lower_case username))) s

  unfoldable pub registration_message : Text → Text → Text
  registration_message name dmail =
      codes "Register " ++ name ++ codes "@" ++ domain ++ codes " for dMail address " ++ dmail

  abbrev pub registration : Text → Text → Text → ℕ → Registration
  registration name dmail wallet now = record {
    username = name;
    email = name ++ codes "@" ++ domain;
    dmail_address = dmail;
    wallet_address = to_lower_case wallet;
    registered_at = now;
    verified = true;
  }

  unfoldable pub put_all : Registration → db.Store → db.Store
  put_all r s =
      db.put (codes "wallet:" ++ r.wallet_address) r
        (db.put (codes "dmail:" ++ r.dmail_address) r (db.put (user_key r.username) r s))

  unfoldable pub register_as :
      Text → Text → Text → Text → ℕ → db.Store → db.Store × Result Registration
  unfolding get_by_username registration_message put_all
  register_as name dmail wallet signature now s = elim (get_by_username name s) [
    | some r ↦ (s, err taken)
    | none ↦ elim (recover (registration_message name dmail) signature) [
      | none ↦ (s, err bad_signature)
      | some address ↦
          if holds (text_discrete (to_lower_case address) (to_lower_case wallet))
          then (
            put_all (registration name dmail wallet now) s,
            ok (registration name dmail wallet now),
          )
          else (s, err bad_signature)
    ]
  ]

  unfoldable pub register :
      Text → Text → Text → Text → ℕ → db.Store → db.Store × Result Registration
  unfolding validate_username register_as
  register username dmail wallet signature now s = elim (validate_username username) [
    | err e ↦ (s, err e)
    | ok name ↦ register_as name dmail wallet signature now s
  ]

  unfoldable pub is_available : Text → db.Store → Result Bool
  unfolding validate_username get_by_username
  is_available username s = elim (validate_username username) [
    | err e ↦ err e
    | ok name ↦ elim (get_by_username name s) [ none ↦ ok true | some r ↦ ok false ]
  ]

  unfoldable pub get_by_dmail_address : Text → db.Store → Option Registration
  get_by_dmail_address dmail s = db.get (codes "dmail:" ++ dmail) s

  unfoldable pub get_by_wallet : Text → db.Store → Option Registration
  get_by_wallet wallet s = db.get (codes "wallet:" ++ to_lower_case wallet) s

  unfoldable pub get_registration_message : Text → Text → Result Text
  unfolding validate_username registration_message
  get_registration_message username dmail = elim (validate_username username) [
    | err e ↦ err e
    | ok name ↦ ok (registration_message name dmail)
  ]

  abbrev pub resolved : Option Registration → Result Resolved
  resolved none = err unknown_address
  resolved (some r) = ok (registered r.dmail_address r.username r.email)

  unfoldable pub resolve : Text → db.Store → Result Resolved
  unfolding includes_at after_at get_by_username
  resolve address s =
      if starts_with address (codes "dm1")
      then ok (direct address)
      else if includes_at address
      then (if holds (text_discrete (after_at address) domain)
          then resolved (get_by_username (before_at address) s)
          else err unknown_address)
      else resolved (get_by_username address s)
