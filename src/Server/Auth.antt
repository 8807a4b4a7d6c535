-- ===== src/Server/Auth.antt =====
-- src/server/auth.js: challenges, sessions and the rate limit of the HTTP API. The module's maps are
-- the record `Store`; `Date.now()` is an argument, and so is each random token. The recovery of a
-- signer's address (`ethers.verifyMessage`, `none` where it throws) is the parameter `recover`.
pub mod Calls
pub mod Nonces
pub mod Sessions
use chainmail_protocol.Base.{
  ℕ, ◌+◌, ◌-◌, ◌≡◌, Bool, true, false, ◌||◌, not, List, [], ◌∷◌, ◌++◌, map, filter, Option, none,
  some, ltb, leb, if◌then◌else◌, length, drop, Text, codes, to_lower_case, starts_with,
  text_discrete, dec_lt, holds,
}
use chainmail_protocol.Base.Dict.{Dict, get, set, delete, keys, delete_where, text_key}
use mathlib.Core.Option

abbrev pub session_duration : ℕ
session_duration = 86400000

abbrev pub nonce_expiry : ℕ
nonce_expiry = 300000

abbrev pub max_requests_per_minute : ℕ
max_requests_per_minute = 60

-- The text ends in a line break, an empty line and `Nonce: `.
abbrev pub challenge_message : Text
challenge_message =
    codes "Sign this message to authenticate with dMail." ++ (10 ∷ 10 ∷ codes "Nonce: ")

pub record Nonce : Type 0 where
  pub expires : ℕ
  pub used : Bool

pub record Session : Type 0 where
  pub wallet_address : Text
  pub dmail_address : Text
  pub expires : ℕ
  pub created_at : ℕ

pub record Store : Type 0 where
  pub sessions : Dict Text Session
  pub nonces : Dict Text Nonce
  pub rate_limits : Dict Text (List ℕ)

pub data Error : Type 0 where
  invalid_nonce nonce_expired nonce_already_used invalid_signature_format wrong_signer no_token
        invalid_token session_expired :
      Error

pub data Result (A : Type 0) : Type 0 where
  ok : A → Result A
  err : Error → Result A

abbrev pub nonce_ends : ℕ → Nonce → Bool
nonce_ends now n = ltb n.expires now

unfoldable pub generate_nonce : Text → ℕ → Store → Store × ℕ
unfolding delete_where
generate_nonce nonce now s =
    let expires = now + nonce_expiry in
    let nonces = set nonce (record { expires = expires; used = false }) s.nonces in
    (record s { nonces = delete_where (nonce_ends now) (keys nonces) nonces }, expires)

unfoldable pub verify_nonce : Text → ℕ → Store → Store × Result (Unit {0})
verify_nonce nonce now s = elim (get nonce s.nonces) [
  | none ↦ (s, err invalid_nonce)
  | some n ↦
      if ltb n.expires now
      then (record s { nonces = delete nonce s.nonces }, err nonce_expired)
      else if n.used
      then (s, err nonce_already_used)
      else (s, ok tt)
]

-- The deletion a minute later is `forget_nonce`.
unfoldable pub consume_nonce : Text → Store → Store
consume_nonce nonce s = elim (get nonce s.nonces) [
  | none ↦ s
  | some n ↦ record s { nonces = set nonce (record { expires = n.expires; used = true }) s.nonces }
]

unfoldable pub forget_nonce : Text → Store → Store
forget_nonce nonce s = record s { nonces = delete nonce s.nonces }

unfoldable pub create_session : Text → ℕ → Text → Text → Store → Store × ℕ
create_session token now wallet dmail s =
    let expires = now + session_duration in
    (
      record s {
        sessions =
            set token
              (record {
                wallet_address = to_lower_case wallet;
                dmail_address = dmail;
                expires = expires;
                created_at = now;
              })
              s.sessions;
      },
      expires,
    )

-- A missing token is `none`; an empty one counts as missing.
unfoldable pub validate_session : Option Text → ℕ → Store → Store × Result Session
validate_session none now s = (s, err no_token)
validate_session (some []) now s = (s, err no_token)
validate_session (some (c ∷ token)) now s = elim (get (c ∷ token) s.sessions) [
  | none ↦ (s, err invalid_token)
  | some session ↦
      if ltb session.expires now
      then (record s { sessions = delete (c ∷ token) s.sessions }, err session_expired)
      else (s, ok session)
]

unfoldable pub destroy_session : Text → Store → Store
destroy_session token s = record s { sessions = delete token s.sessions }

abbrev pub session_ends : ℕ → Session → Bool
session_ends now x = ltb x.expires now

-- The timer at the end of the file.
unfoldable pub sweep : ℕ → Store → Store
unfolding delete_where
sweep now s = record s { sessions = delete_where (session_ends now) (keys s.sessions) s.sessions }

-- Behind a nonce that is valid.
unfoldable pub check_signer : Option Text → Text → Text → Store → Store × Result Text
unfolding consume_nonce
check_signer none wallet nonce s = (s, err invalid_signature_format)
check_signer (some recovered) wallet nonce s =
    if holds (text_discrete (to_lower_case recovered) (to_lower_case wallet))
    then (consume_nonce nonce s, ok recovered)
    else (s, err wrong_signer)

module _ (Signature : Type 0) (recover : Text → Signature → Option Text) where
  unfoldable pub authenticate_wallet : Signature → Text → Text → ℕ → Store → Store × Result Text
  authenticate_wallet signature wallet nonce now s =
      let (s', checked) = verify_nonce nonce now s in
      elim checked [
        | err e ↦ (s', err e)
        | ok _ ↦ check_signer (recover (challenge_message ++ nonce) signature) wallet nonce s'
      ]

pub data Allowance : Type 0 where
  remaining retry_later : ℕ → Allowance

-- `record.requests.filter(t => t > windowStart)`, of an absent record the empty list.
unfoldable pub recent_requests : Text → ℕ → Store → List ℕ
unfolding dec_lt
recent_requests ip now s =
    filter (λ t. dec_lt now (t + 60000)) (Option.get_or (get ip s.rate_limits) [])

unfoldable pub check_rate_limit : Text → ℕ → Store → Store × Allowance
unfolding recent_requests
check_rate_limit ip now s =
    let recent = recent_requests ip now s in
    if leb max_requests_per_minute (length recent)
    then (record s { rate_limits = set ip recent s.rate_limits }, retry_later 60)
    else (
      record s { rate_limits = set ip (recent ++ now ∷ []) s.rate_limits },
      remaining (max_requests_per_minute - length (recent ++ now ∷ [])),
    )

pub record Request : Type 0 where
  pub path : Text
  pub ip : Text
  pub authorization : Option Text

pub data Reply : Type 0 where
  next : Option Session → Reply
  too_many_requests : ℕ → Reply
  authentication_required : Reply
  unauthorized : Error → Reply

abbrev pub bearer : Text
bearer = codes "Bearer "

unfoldable pub is_public : Text → Bool
unfolding starts_with
is_public path =
    starts_with path (codes "/health")
    || (starts_with path (codes "/api/auth/challenge")
        || starts_with path (codes "/api/auth/login"))

-- The token of an `Authorization` header: what follows `Bearer `.
unfoldable pub bearer_token : Option Text → Option Text
unfolding starts_with
bearer_token none = none
bearer_token (some h) = if starts_with h bearer then some (drop 7 h) else none

unfoldable pub check_token : Option Text → ℕ → Store → Store × Reply
check_token none now s = (s, authentication_required)
check_token (some token) now s =
    let (s', checked) = validate_session (some token) now s in
    elim checked [ ok session ↦ (s', next (some session)) | err e ↦ (s', unauthorized e) ]

unfoldable pub auth_middleware : Request → ℕ → Store → Store × Reply
auth_middleware r now s =
    if is_public r.path
    then (s, next none)
    else let (s', allowance) = check_rate_limit r.ip now s in
      elim allowance [
        | retry_later n ↦ (s', too_many_requests n)
        | remaining n ↦ check_token (bearer_token r.authorization) now s'
      ]
