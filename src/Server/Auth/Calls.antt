-- ===== src/Server/Auth/Calls.antt =====
-- src/server/auth.js: the calls that reach the module's maps, in any order.
use chainmail_protocol.Base.{ℕ, List, [], ◌∷◌, Option, Text}
use chainmail_protocol.Server.Auth.{
  Store, Request, generate_nonce, forget_nonce, create_session, validate_session, destroy_session,
  sweep, authenticate_wallet, check_rate_limit, auth_middleware,
}

-- The calls that reach the module's maps.
pub data Call (Signature : Type 0) : Type 0 where
  generates : Text → ℕ → Call Signature
  authenticates : Signature → Text → Text → ℕ → Call Signature
  forgets : Text → Call Signature
  creates : Text → ℕ → Text → Text → Call Signature
  validates : Option Text → ℕ → Call Signature
  destroys : Text → Call Signature
  sweeps : ℕ → Call Signature
  limits : Text → ℕ → Call Signature
  serves : Request → ℕ → Call Signature

module _ (Signature : Type 0) (recover : Text → Signature → Option Text) where
  unfoldable pub act : Store → Call Signature → Store
  act s (generates n now) = (generate_nonce n now s).0
  act s (authenticates sig wallet n now) =
      (authenticate_wallet Signature recover sig wallet n now s).0
  act s (forgets n) = forget_nonce n s
  act s (creates token now wallet dmail) = (create_session token now wallet dmail s).0
  act s (validates token now) = (validate_session token now s).0
  act s (destroys token) = destroy_session token s
  act s (sweeps now) = sweep now s
  act s (limits ip now) = (check_rate_limit ip now s).0
  act s (serves r now) = (auth_middleware r now s).0

  unfoldable pub run : Store → List (Call Signature) → Store
  unfolding act
  run s [] = s
  run s (c ∷ cs) = run (act s c) cs
