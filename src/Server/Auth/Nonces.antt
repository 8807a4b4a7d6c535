-- ===== src/Server/Auth/Nonces.antt =====
-- src/server/auth.js: a challenge is good for one sign-in.
use chainmail_protocol.Base.{
  ℕ, ◌+◌, ◌≤◌, ◌≡◌, refl, ◌≢◌, inl, inr, true, false, List, [], ◌∷◌, ◌++◌, Option, none, some,
  arith, Text, All, Option-cases,
}
use chainmail_protocol.Base.Dict.{
  get, set, keys, text_key, get-set_self, get-set_ne, get-delete_self, get-delete_ne,
  get-delete_where_keep, get-delete_where_of,
}
use chainmail_protocol.Server.Auth.Calls.{
  Call, generates, authenticates, forgets, creates, validates, destroys, sweeps, limits, serves,
  act, run,
}
use chainmail_protocol.Server.Auth.{
  Store, Nonce, Result, ok, Request, nonce_ends, nonce_expiry, challenge_message, generate_nonce,
  verify_nonce, consume_nonce, forget_nonce, create_session, validate_session, destroy_session,
  sweep, check_signer, authenticate_wallet, check_rate_limit, auth_middleware, check_token,
  bearer_token,
}

-- The nonce is good no more: it is not in the map, or it is used.
abbrev pub IsSpent : Text → Store → Type 0
IsSpent n s = (x : Nonce) → get n s.nonces ≡ some x → x.used ≡ true

generate-IsSpent :
    (n m : Text) (now : ℕ) (s : Store) → m ≢ n → IsSpent n s → IsSpent n (generate_nonce m now s).0
unfolding generate_nonce
generate-IsSpent n m now s h spent x g =
    let nonces = set m (record { expires = now + nonce_expiry; used = false }) s.nonces in
    ground (
      arith,
      get-delete_where_of (nonce_ends now) (keys nonces) nonces n x g,
      get-set_ne m n (record { expires = now + nonce_expiry; used = false }) s.nonces,
      spent x,
    )

forget-IsSpent : (n m : Text) (s : Store) → IsSpent n s → IsSpent n (forget_nonce m s)
unfolding forget_nonce
forget-IsSpent n m s spent x g =
    ground
      (arith, get-delete_self m s.nonces, get-delete_ne m n s.nonces, spent x, text_key.dec n m)

verify-IsSpent :
    (n m : Text) (now : ℕ) (s : Store) → IsSpent n s → IsSpent n (verify_nonce m now s).0
unfolding verify_nonce
verify-IsSpent n m now s spent x g =
    ground
      (arith, get-delete_self m s.nonces, get-delete_ne m n s.nonces, spent x, text_key.dec n m)

consume-IsSpent : (n m : Text) (s : Store) → IsSpent n s → IsSpent n (consume_nonce m s)
unfolding consume_nonce
consume-IsSpent n m s spent x g = elim (Option-cases (get m s.nonces)) [
  | inl e ↦ spent x (rw (e, consume_nonce) at g)
  | inr (y, e) ↦ elim (text_key.dec n m) [
    | yes q ↦ ground (arith, get-set_self m (record { expires = y.expires; used = true }) s.nonces)
    | no q ↦
        ground
          (arith, get-set_ne m n (record { expires = y.expires; used = true }) s.nonces q, spent x)
  ]
]

-- A new challenge is valid until it expires, five minutes later.
pub verify_nonce-generate_nonce :
    (n : Text) (now later : ℕ) (s : Store)
    → later ≤ now + nonce_expiry
    → (verify_nonce n later (generate_nonce n now s).0).1 ≡ ok tt
unfolding verify_nonce generate_nonce
verify_nonce-generate_nonce n now later s h =
    let x : Nonce = record { expires = now + nonce_expiry; used = false } in
    ground (
      arith,
      get-delete_where_keep (nonce_ends now) (keys (set n x s.nonces)) (set n x s.nonces) n x
          (get-set_self n x s.nonces),
    )

signer-IsSpent :
    (n m : Text) (o : Option Text) (wallet : Text) (s : Store)
    → IsSpent n s
    → IsSpent n (check_signer o wallet m s).0
unfolding check_signer
signer-IsSpent n m none wallet s spent x g = spent x g
signer-IsSpent n m (some a) wallet s spent x g =
    ground (arith, consume-IsSpent n m s spent x, spent x)

consume_self : (n : Text) (s : Store) → IsSpent n (consume_nonce n s)
unfolding consume_nonce
consume_self n s x g = elim (Option-cases (get n s.nonces)) [
  | inl e ↦ ground arith
  | inr (y, e) ↦
      ground (arith, get-set_self n (record { expires = y.expires; used = true }) s.nonces)
]

signer-spends :
    (n : Text) (o : Option Text) (wallet : Text) (s : Store) (a : Text)
    → (check_signer o wallet n s).1 ≡ ok a
    → (check_signer o wallet n s).0 ≡ consume_nonce n s
unfolding check_signer
signer-spends n none wallet s a e = cc
signer-spends n (some b) wallet s a e = ground arith

pub validate_nonces :
    (t : Option Text) (now : ℕ) (s : Store) → (validate_session t now s).0.nonces ≡ s.nonces
unfolding validate_session
validate_nonces none now s = refl
validate_nonces (some []) now s = refl
validate_nonces (some (c ∷ t)) now s = ground arith

limit_nonces : (ip : Text) (now : ℕ) (s : Store) → (check_rate_limit ip now s).0.nonces ≡ s.nonces
unfolding check_rate_limit
limit_nonces ip now s = ground arith

token_nonces : (t : Option Text) (now : ℕ) (s : Store) → (check_token t now s).0.nonces ≡ s.nonces
unfolding check_token
token_nonces none now s = refl
token_nonces (some t) now s = ground (arith, validate_nonces (some t) now s)

middleware_nonces :
    (r : Request) (now : ℕ) (s : Store) → (auth_middleware r now s).0.nonces ≡ s.nonces
unfolding auth_middleware
middleware_nonces r now s = ground (
  arith,
  limit_nonces r.ip now s,
  token_nonces (bearer_token r.authorization) now (check_rate_limit r.ip now s).0,
)

module _ (Signature : Type 0) (recover : Text → Signature → Option Text) where
  abbrev authenticate : Signature → Text → Text → ℕ → Store → Store × Result Text
  authenticate = authenticate_wallet Signature recover

  abbrev pub Renews : Text → Call Signature → Type 0
  Renews n c = (now : ℕ) × (c ≡ generates n now)

  authenticate-IsSpent :
      (n m : Text) (sig : Signature) (wallet : Text) (now : ℕ) (s : Store)
      → IsSpent n s
      → IsSpent n (authenticate sig wallet m now s).0
  unfolding authenticate_wallet
  authenticate-IsSpent n m sig wallet now s spent x g = ground (
    arith,
    verify-IsSpent n m now s spent x,
    signer-IsSpent n m (recover (challenge_message ++ m) sig) wallet (verify_nonce m now s).0
        (verify-IsSpent n m now s spent) x,
  )

  act-IsSpent :
      (n : Text) (s : Store) (c : Call Signature)
      → ¬ Renews n c
      → IsSpent n s
      → IsSpent n (act Signature recover s c)
  unfolding act create_session destroy_session sweep
  act-IsSpent n s (generates m now) h spent = generate-IsSpent n m now s (λ e. h (now, rw e)) spent
  act-IsSpent n s (authenticates sig wallet m now) h spent =
      authenticate-IsSpent n m sig wallet now s spent
  act-IsSpent n s (forgets m) h spent = forget-IsSpent n m s spent
  act-IsSpent n s (creates token now wallet dmail) h spent = spent
  act-IsSpent n s (validates token now) h spent = rw (validate_nonces token now s) spent
  act-IsSpent n s (destroys token) h spent = spent
  act-IsSpent n s (sweeps now) h spent = spent
  act-IsSpent n s (limits ip now) h spent = rw (limit_nonces ip now s) spent
  act-IsSpent n s (serves r now) h spent = rw (middleware_nonces r now s) spent

  run-IsSpent :
      (n : Text) (s : Store) (cs : List (Call Signature))
      → All (λ c. ¬ Renews n c) cs
      → IsSpent n s
      → IsSpent n (run Signature recover s cs)
  unfolding run
  run-IsSpent n s [] h spent = spent
  run-IsSpent n s (c ∷ cs) h spent =
      run-IsSpent n (act Signature recover s c) cs h.1 (act-IsSpent n s c h.0 spent)

  authenticate-spends :
      (sig : Signature) (wallet n : Text) (now : ℕ) (s : Store) (a : Text)
      → (authenticate sig wallet n now s).1 ≡ ok a
      → IsSpent n (authenticate sig wallet n now s).0
  unfolding authenticate_wallet
  authenticate-spends sig wallet n now s a e x g = ground (
    arith,
    signer-spends n (recover (challenge_message ++ n) sig) wallet (verify_nonce n now s).0 a,
    consume_self n (verify_nonce n now s).0 x,
  )

  spent_fails :
      (sig : Signature) (wallet n : Text) (now : ℕ) (s : Store) (a : Text)
      → IsSpent n s
      → (authenticate sig wallet n now s).1 ≢ ok a
  unfolding authenticate_wallet verify_nonce
  spent_fails sig wallet n now s a spent e = elim (Option-cases (get n s.nonces)) [
    | inl absent ↦ ground arith
    | inr (y, here) ↦ ground (arith, spent y here)
  ]

  -- A challenge that a wallet has signed in with signs nobody in again: after a success with the
  -- nonce `n`, and any calls of which none generates `n` anew, every sign-in with `n` fails,
  -- whatever the signature, the wallet and the time.
  pub authenticate_wallet-once :
      (sig sig' : Signature) (wallet wallet' n : Text) (now later : ℕ) (s : Store) (a : Text)
      (cs : List (Call Signature))
      → (authenticate_wallet Signature recover sig wallet n now s).1 ≡ ok a
      → All (λ c. ¬ Renews n c) cs
      → (b : Text)
      → (authenticate_wallet Signature recover sig' wallet' n later
          (run Signature recover (authenticate_wallet Signature recover sig wallet n now s).0 cs)).1
        ≢ ok b
  authenticate_wallet-once sig sig' wallet wallet' n now later s a cs e h b =
      spent_fails sig' wallet' n later _ b
        (run-IsSpent n _ cs h (authenticate-spends sig wallet n now s a e))
