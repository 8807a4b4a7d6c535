-- ===== src/Gateway.antt =====
-- src/gateway/smtp-gateway.js: the addresses of the gateway, the recipients that it accepts, and the
-- messages that it forwards. The servers of SMTP are libraries; a parsed mail is an argument.
use chainmail_protocol.Base.{
  ℕ, ◌≡◌, Bool, true, false, List, [], ◌∷◌, ◌++◌, Option, none, some, if◌then◌else◌, Text, Bytes,
  codes, to_lower_case, text_discrete, holds, drop, starts_with,
}
use chainmail_protocol.Base.Database.{Db}
use chainmail_protocol.Base.Dict.{Dict, text_key, get, set}
use chainmail_protocol.Crypto.{Signing}
use chainmail_protocol.Crypto.Identity.{Identity, address_to_public_key}
use chainmail_protocol.Protocol.Message.{Draft, new_draft, to, subject, body}
use chainmail_protocol.Registry.{before_at, after_at}
pub mod Cache

pub record Mapping : Type 0 where
  pub dmail_address : Text
  pub registered_at : ℕ

pub record Recipient : Type 0 where
  pub email : Text
  pub dmail_address : Text
  pub local_part : Text

-- What a recipient is answered with.
pub data Answer : Type 0 where
  accepted : Recipient → Answer
  relay_not_allowed : Answer
  unknown_recipient : Answer

pub record Mail : Type 0 where
  pub subject : Option Text
  pub text : Option Text

abbrev pub addr_key : Text → Text
addr_key local_part = codes "addr:" ++ local_part

abbrev pub text_or : Option Text → Text → Text
text_or none d = d
text_or (some []) d = d
text_or (some (u ∷ us)) d = u ∷ us

unfoldable pub forwarded : Identity → ℕ → Mail → Text → Recipient → Draft
unfolding new_draft to subject body
forwarded gateway now mail from recipient =
    body (codes "From: " ++ from ++ (10 ∷ 10 ∷ text_or mail.text [])) (
      subject (codes "[Gateway] " ++ text_or mail.subject (codes "(no subject)"))
        (to recipient.dmail_address (new_draft gateway now)))

unfoldable pub set_mappings : List (Text × Mapping) → Dict Text Text → Dict Text Text
set_mappings [] m = m
set_mappings ((k, v) ∷ es) m =
    set_mappings es (if starts_with k (codes "addr:") then set (drop 5 k) v.dmail_address m else m)

unfoldable pub listed : Text → List (Text × Mapping) → List (Text × Mapping)
listed domain [] = []
listed domain ((k, v) ∷ es) =
    let rest = listed domain es in
    if starts_with k (codes "addr:") then (drop 5 k ++ b'@' ∷ domain, v) ∷ rest else rest

module _ (g : Signing) (db : Db Mapping) (domain : Text) where
  -- The addresses in memory, and the database.
  abbrev pub Gateway : Type 0
  Gateway = Dict Text Text × db.Store

  abbrev pub keep_valid : Text → Text → ℕ → Option Bytes → Gateway → Gateway × Option Text
  keep_valid local_part dmail now none t = (t, none)
  keep_valid local_part dmail now (some key) t = (
    (
      set (to_lower_case local_part) dmail t.0,
      db.put (addr_key (to_lower_case local_part))
          (record { dmail_address = dmail; registered_at = now }) t.1,
    ),
    some (local_part ++ b'@' ∷ domain),
  )

  -- `none` is the exception for an invalid address.
  unfoldable pub register_address : Text → Text → ℕ → Gateway → Gateway × Option Text
  unfolding address_to_public_key
  register_address local_part dmail now t =
      keep_valid local_part dmail now (address_to_public_key g dmail) t

  abbrev pub keep_found : Text → Option Mapping → Gateway → Gateway × Option Text
  keep_found key none t = (t, none)
  keep_found key (some r) t = ((set key r.dmail_address t.0, t.1), some r.dmail_address)

  abbrev pub known_or_found : Text → Option Text → Gateway → Gateway × Option Text
  known_or_found key none t = keep_found key (db.get (addr_key key) t.1) t
  known_or_found key (some dmail) t = (t, some dmail)

  unfoldable pub get_dmail_address : Text → Gateway → Gateway × Option Text
  get_dmail_address local_part t =
      known_or_found (to_lower_case local_part) (get (to_lower_case local_part) t.0) t

  unfoldable pub load_address_mappings : Gateway → Gateway
  unfolding set_mappings
  load_address_mappings t = (set_mappings (db.iterator t.1) t.0, t.1)

  unfoldable pub list_addresses : Gateway → List (Text × Mapping)
  unfolding listed
  list_addresses t = listed domain (db.iterator t.1)

  -- An address that is missing or empty is unknown.
  abbrev pub answer : Text → Option Text → Answer
  answer email none = unknown_recipient
  answer email (some []) = unknown_recipient
  answer email (some (u ∷ us)) =
      accepted (record { email = email; dmail_address = u ∷ us; local_part = before_at email })

  unfoldable pub on_rcpt_to : Text → Gateway → Gateway × Answer
  unfolding get_dmail_address before_at after_at
  on_rcpt_to address t =
      let email : Text = to_lower_case address in
      let found = get_dmail_address (before_at email) t in
      if holds (text_discrete (after_at email) domain)
      then (found.0, answer email found.1)
      else (t, relay_not_allowed)
