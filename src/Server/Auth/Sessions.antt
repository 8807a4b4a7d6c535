-- ===== src/Server/Auth/Sessions.antt =====
-- src/server/auth.js: the life of a session.
use chainmail_protocol.Base.{
  ℕ, ◌+◌, ◌≤◌, ◌<◌, ◌≡◌, refl, ◌≢◌, List, [], ◌∷◌, ◌++◌, Option, none, some, arith, Text,
  to_lower_case, All,
}
use chainmail_protocol.Base.Dict.{
  get, keys, text_key, get-set_self, get-set_ne, get-delete_self, get-delete_ne,
  get-delete_where_keep, get-delete_where_of,
}
use chainmail_protocol.Server.Auth.Calls.{
  Call, generates, authenticates, forgets, creates, validates, destroys, sweeps, limits, serves,
  act, run,
}
use chainmail_protocol.Server.Auth.{
  Store, Session, ok, Request, session_ends, session_duration, generate_nonce, verify_nonce,
  forget_nonce, create_session, validate_session, destroy_session, sweep, check_signer,
  authenticate_wallet, check_rate_limit, auth_middleware, check_token, bearer_token,
  challenge_message,
}

-- What a call leaves of one entry of the session map.
pub validate_of :
    (t : Option Text) (now : ℕ) (s : Store) (k : Text) (x : Session)
    → get k (validate_session t now s).0.sessions ≡ some x
    → get k s.sessions ≡ some x
unfolding validate_session
validate_of none now s k x g = g
validate_of (some []) now s k x g = g
validate_of (some (c ∷ t)) now s k x g = ground (
  arith,
  get-delete_self (c ∷ t) s.sessions,
  get-delete_ne (c ∷ t) k s.sessions,
  text_key.dec k (c ∷ t),
)

validate_keep :
    (t : Option Text) (now : ℕ) (s : Store) (k : Text) (x : Session)
    → now ≤ x.expires
    → get k s.sessions ≡ some x
    → get k (validate_session t now s).0.sessions ≡ some x
unfolding validate_session
validate_keep none now s k x h g = g
validate_keep (some []) now s k x h g = g
validate_keep (some (c ∷ t)) now s k x h g = ground (
  arith,
  get-delete_self (c ∷ t) s.sessions,
  get-delete_ne (c ∷ t) k s.sessions,
  text_key.dec k (c ∷ t),
)

-- A token that is answered is in the map, and has not expired.
pub validated :
    (k : Text) (now : ℕ) (s : Store) (x : Session)
    → (validate_session (some k) now s).1 ≡ ok x
    → (now ≤ x.expires) × (get k s.sessions ≡ some x)
unfolding validate_session
validated [] now s x e = cc
validated (c ∷ t) now s x e = ground arith

pub limit_sessions :
    (ip : Text) (now : ℕ) (s : Store) → (check_rate_limit ip now s).0.sessions ≡ s.sessions
unfolding check_rate_limit
limit_sessions ip now s = ground arith

token_of :
    (t : Option Text) (now : ℕ) (s : Store) (k : Text) (x : Session)
    → get k (check_token t now s).0.sessions ≡ some x
    → get k s.sessions ≡ some x
unfolding check_token
token_of none now s k x g = g
token_of (some t) now s k x g = ground (arith, validate_of (some t) now s k x)

token_keep :
    (t : Option Text) (now : ℕ) (s : Store) (k : Text) (x : Session)
    → now ≤ x.expires
    → get k s.sessions ≡ some x
    → get k (check_token t now s).0.sessions ≡ some x
unfolding check_token
token_keep none now s k x h g = g
token_keep (some t) now s k x h g = ground (arith, validate_keep (some t) now s k x h g)

pub serve_of :
    (r : Request) (now : ℕ) (s : Store) (k : Text) (x : Session)
    → get k (auth_middleware r now s).0.sessions ≡ some x
    → get k s.sessions ≡ some x
unfolding auth_middleware
serve_of r now s k x g = ground (
  arith,
  limit_sessions r.ip now s,
  token_of (bearer_token r.authorization) now (check_rate_limit r.ip now s).0 k x,
)

serve_keep :
    (r : Request) (now : ℕ) (s : Store) (k : Text) (x : Session)
    → now ≤ x.expires
    → get k s.sessions ≡ some x
    → get k (auth_middleware r now s).0.sessions ≡ some x
unfolding auth_middleware
serve_keep r now s k x h g = ground (
  arith,
  limit_sessions r.ip now s,
  token_keep (bearer_token r.authorization) now (check_rate_limit r.ip now s).0 k x h,
)

signer_sessions :
    (n : Text) (o : Option Text) (wallet : Text) (s : Store)
    → (check_signer o wallet n s).0.sessions ≡ s.sessions
unfolding check_signer
signer_sessions n none wallet s = refl
signer_sessions n (some b) wallet s = ground arith

verify_sessions : (n : Text) (now : ℕ) (s : Store) → (verify_nonce n now s).0.sessions ≡ s.sessions
unfolding verify_nonce
verify_sessions n now s = ground arith

module _ (Signature : Type 0) (recover : Text → Signature → Option Text) (k : Text) where
  pub authenticate_sessions :
      (sig : Signature) (wallet n : Text) (now : ℕ) (s : Store)
      → (authenticate_wallet Signature recover sig wallet n now s).0.sessions ≡ s.sessions
  unfolding authenticate_wallet
  authenticate_sessions sig wallet n now s = ground (
    arith,
    verify_sessions n now s,
    signer_sessions n (recover (challenge_message ++ n) sig) wallet (verify_nonce n now s).0,
  )

  -- The call makes a session under the token `k`.
  abbrev pub Creates : Call Signature → Type 0
  Creates c = (now : ℕ) × (wallet : Text) × (dmail : Text) × (c ≡ creates k now wallet dmail)

  -- The call reads the clock no later than `end`.
  abbrev pub Reads : ℕ → Call Signature → Type 0
  Reads end (validates t now) = now ≤ end
  Reads end (sweeps now) = now ≤ end
  Reads end (serves r now) = now ≤ end
  Reads end _ = Unit

  act_of :
      (s : Store) (c : Call Signature) (x : Session)
      → ¬ Creates c
      → get k (act Signature recover s c).sessions ≡ some x
      → get k s.sessions ≡ some x
  unfolding act generate_nonce forget_nonce create_session destroy_session sweep
  act_of s (generates n now) x h g = g
  act_of s (authenticates sig wallet n now) x h g =
      rw (authenticate_sessions sig wallet n now s) at g
  act_of s (forgets n) x h g = g
  act_of s (creates token now wallet dmail) x h g =
      rw (get-set_ne token k _ s.sessions (λ e. h (now, wallet, dmail, rw e))) at g
  act_of s (validates t now) x h g = validate_of t now s k x g
  act_of s (destroys token) x h g = ground (
    arith,
    get-delete_self token s.sessions,
    get-delete_ne token k s.sessions,
    text_key.dec k token,
  )
  act_of s (sweeps now) x h g =
      get-delete_where_of (session_ends now) (keys s.sessions) s.sessions k x g
  act_of s (limits ip now) x h g = rw (limit_sessions ip now s) at g
  act_of s (serves r now) x h g = serve_of r now s k x g

  act_keep :
      (s : Store) (c : Call Signature) (x : Session)
      → ¬ Creates c
      → c ≢ destroys k
      → Reads x.expires c
      → get k s.sessions ≡ some x
      → get k (act Signature recover s c).sessions ≡ some x
  unfolding act generate_nonce forget_nonce create_session destroy_session sweep
  act_keep s (generates n now) x h d r g = g
  act_keep s (authenticates sig wallet n now) x h d r g =
      rw (authenticate_sessions sig wallet n now s) g
  act_keep s (forgets n) x h d r g = g
  act_keep s (creates token now wallet dmail) x h d r g =
      rw (get-set_ne token k _ s.sessions (λ e. h (now, wallet, dmail, rw e))) g
  act_keep s (validates t now) x h d r g = validate_keep t now s k x r g
  act_keep s (destroys token) x h d r g = rw (get-delete_ne token k s.sessions (λ e. d (rw e))) g
  act_keep s (sweeps now) x h d r g =
      get-delete_where_keep (session_ends now) (keys s.sessions) s.sessions k x g (ground arith)
  act_keep s (limits ip now) x h d r g = rw (limit_sessions ip now s) g
  act_keep s (serves r now) x h d q g = serve_keep r now s k x q g

  run_keep :
      (s : Store) (cs : List (Call Signature)) (x : Session)
      → All (λ c. ¬ Creates c × (c ≢ destroys k) × Reads x.expires c) cs
      → get k s.sessions ≡ some x
      → get k (run Signature recover s cs).sessions ≡ some x
  unfolding run
  run_keep s [] x h g = g
  run_keep s (c ∷ cs) x h g =
      run_keep (act Signature recover s c) cs x h.1 (act_keep s c x (h.0).0 (h.0).1 (h.0).2 g)

  run_of :
      (s : Store) (cs : List (Call Signature)) (x : Session)
      → All (λ c. ¬ Creates c) cs
      → get k (run Signature recover s cs).sessions ≡ some x
      → get k s.sessions ≡ some x
  unfolding run
  run_of s [] x h g = g
  run_of s (c ∷ cs) x h g = act_of s c x h.0 (run_of (act Signature recover s c) cs x h.1 g)

-- The session that `create_session` stores.
abbrev pub session_at : ℕ → Text → Text → Session
session_at now wallet dmail = record {
  wallet_address = to_lower_case wallet;
  dmail_address = dmail;
  expires = now + session_duration;
  created_at = now;
}

module _ (Signature : Type 0) (recover : Text → Signature → Option Text) where
  -- A new session is valid under its token for a day: after any calls that neither create nor
  -- destroy a session of that token, and that read the clock within that day, the token is answered
  -- by the session with the lower-case wallet address.
  pub validate_session-create_session :
      (c : ℕ) (t : Text) (now later : ℕ) (wallet dmail : Text) (s : Store)
      (cs : List (Call Signature))
      → later ≤ now + session_duration
      → All
          (λ e.
            ¬ Creates Signature recover (c ∷ t) e
            × (e ≢ destroys (c ∷ t))
            × Reads Signature recover (c ∷ t) (now + session_duration) e)
          cs
      → (validate_session
          (some (c ∷ t))
          later
          (run Signature recover (create_session (c ∷ t) now wallet dmail s).0 cs)).1
        ≡ ok (session_at now wallet dmail)
  unfolding validate_session create_session
  validate_session-create_session c t now later wallet dmail s cs h calls = ground (
    arith,
    run_keep Signature recover (c ∷ t) (create_session (c ∷ t) now wallet dmail s).0 cs
        (session_at now wallet dmail) calls
        (get-set_self (c ∷ t) (session_at now wallet dmail) s.sessions),
  )

  -- A session ends: more than a day after its creation no token is answered by it, nor by any other
  -- session, and neither is a destroyed token, whatever calls came in between, unless one of them
  -- created a session of that token anew.
  pub validate_session-ends :
      (k : Text) (now later : ℕ) (wallet dmail : Text) (s : Store) (cs : List (Call Signature))
      (x : Session)
      → All (λ e. ¬ Creates Signature recover k e) cs
      → now + session_duration < later
      → ((validate_session
            (some k)
            later
            (run Signature recover (create_session k now wallet dmail s).0 cs)).1
          ≢ ok x)
        × ((validate_session (some k) later (run Signature recover (destroy_session k s) cs)).1
            ≢ ok x)
  unfolding create_session destroy_session
  validate_session-ends k now later wallet dmail s cs x calls late = (
    λ e.
        let (live, here) = validated _ _ _ _ e in
        let old = run_of Signature recover k _ cs x calls here in
        ground (arith, get-set_self k (session_at now wallet dmail) s.sessions),
    λ e.
        let (live, here) = validated _ _ _ _ e in
        let old = run_of Signature recover k _ cs x calls here in
        ground (arith, get-delete_self k s.sessions),
  )
