-- ===== src/Server/Api/Guard.antt =====
-- src/server/secure-server.js: who is let through, and what a request may change.
use chainmail_protocol.Base.{
  starts_with, ℕ, ◌≡◌, ◌≢◌, refl, ap, sym, ◌∙◌, false, [], ◌∷◌, Option, none, some, Text, arith,
}
use chainmail_protocol.Base.Dict.{get, text_key}
use chainmail_protocol.Storage.DhtStorage.{text_or}
use chainmail_protocol.Server.Auth
use chainmail_protocol.Server.Auth.{
  Session, Request, validate_session, bearer_token, auth_middleware, check_rate_limit, check_token,
}
use chainmail_protocol.Server.Auth.Sessions.{limit_sessions, serve_of}
use chainmail_protocol.Server.Api.{Services, Call, Reply}
use chainmail_protocol.Server.Api.Handlers.{State}
use chainmail_protocol.Server.Api.Routes.{path_of, pass, serve}
use chainmail_protocol.Server.Auth.{Allowance, remaining, retry_later, Result, ok, err, is_public}
use chainmail_protocol.Server.Api.Changes.{identity_at, Within, Within-refl}
use chainmail_protocol.Server.Api.Changes.Calls.{handle-Within}

abbrev IsRefusal : Auth.Reply → Type 0
IsRefusal (Auth.next x) = ⊥
IsRefusal _ = Unit

pub path_of-is_private : {Store : Type 0} → (call : Call Store) → is_public (path_of call) ≡ false
unfolding is_public starts_with
path_of-is_private Call.get_identity = refl
path_of-is_private (Call.node_start o) = refl
path_of-is_private Call.node_stop = refl
path_of-is_private Call.node_status = refl
path_of-is_private (Call.get_messages answers) = refl
path_of-is_private (Call.get_message id) = refl
path_of-is_private (Call.delete_message id) = refl
path_of-is_private (Call.send_message to subject_text body_text r) = refl
path_of-is_private (Call.username_check name) = refl
path_of-is_private (Call.username_message name) = refl
path_of-is_private (Call.username_register name signature) = refl
path_of-is_private Call.username_me = refl
path_of-is_private (Call.resolve name) = refl

pub validate_session-sessions :
    (token : Option Text) (now : ℕ) (s t : Auth.Store)
    → t.sessions ≡ s.sessions
    → (validate_session token now t).1 ≡ (validate_session token now s).1
unfolding validate_session
validate_session-sessions none now s t h = refl
validate_session-sessions (some []) now s t h = refl
validate_session-sessions (some (c ∷ token)) now s t h = ground (arith, h)

-- No session is valid under the token.
abbrev pub IsInvalid : Option Text → ℕ → Auth.Store → Type 0
IsInvalid token now s = (x : Session) → (validate_session token now s).1 ≢ ok x

check_token-IsRefusal :
    (token : Option Text) (now : ℕ) (s : Auth.Store)
    → IsInvalid token now s
    → IsRefusal (check_token token now s).1
unfolding check_token
check_token-IsRefusal none now s h = tt
check_token-IsRefusal (some token) now s h = go (validate_session (some token) now s).1 h
  where
    checked : Auth.Store
    checked = (validate_session (some token) now s).0

    go :
        (r : Result Session)
        → ((x : Session) → r ≢ ok x)
        → IsRefusal
            (elim r as (λ x. Auth.Store × Auth.Reply) [
              | ok session ↦ (checked, Auth.next (some session))
              | err e ↦ (checked, Auth.unauthorized e)
            ]).1
    go (ok x) k = absurd (k x refl)
    go (err e) k = tt

auth_middleware-IsRefusal :
    (r : Request) (now : ℕ) (s : Auth.Store)
    → is_public r.path ≡ false
    → IsInvalid (bearer_token r.authorization) now s
    → IsRefusal (auth_middleware r now s).1
unfolding auth_middleware
auth_middleware-IsRefusal r now s p h = rw p (go (check_rate_limit r.ip now s).1)
  where
    limited : Auth.Store
    limited = (check_rate_limit r.ip now s).0

    go :
        (a : Allowance)
        → IsRefusal
            (elim a as (λ x. Auth.Store × Auth.Reply) [
              | retry_later n ↦ (limited, Auth.too_many_requests n)
              | remaining n ↦ check_token (bearer_token r.authorization) now limited
            ]).1
    go (retry_later n) = tt
    go (remaining n) = check_token-IsRefusal (bearer_token r.authorization) now limited (λ x e.
        h x (
          sym (
            validate_session-sessions (bearer_token r.authorization) now s limited
              (limit_sessions r.ip now s))
          ∙ e))

module _ (v : Services) where
  pass-refused :
      (r : Auth.Reply) (token : Text) (now : ℕ) (call : Call v.mail.Store) (s : State v)
      → IsRefusal r
      → pass v r token now call s ≡ (s, Reply.refused r)
  pass-refused (Auth.next x) token now call s h = absurd h
  pass-refused (Auth.too_many_requests n) token now call s h = refl
  pass-refused Auth.authentication_required token now call s h = refl
  pass-refused (Auth.unauthorized e) token now call s h = refl

  -- A request whose token belongs to no session that is valid is refused, whatever it asks for, and
  -- it changes nothing but what the middleware itself keeps.
  pub serve-refused :
      (ip : Text) (authorization : Option Text) (now : ℕ) (call : Call v.mail.Store) (s : State v)
      → IsInvalid (bearer_token authorization) now s.auth
      → let (t, reply) = serve v ip authorization now call s in
        (t ≡ record s { auth = t.auth }) × ((r : Auth.Reply) × (reply ≡ Reply.refused r))
  unfolding serve
  serve-refused ip authorization now call s h =
      let q : Request = record { path = path_of call; ip = ip; authorization = authorization } in
      let (auth', r) = auth_middleware q now s.auth in
      let e =
        pass-refused r (text_or (bearer_token authorization) []) now call
          (record s { auth = auth' })
          (auth_middleware-IsRefusal q now s.auth (path_of-is_private call) h) in
      (
        ap (λ t. t.0) e ∙ ap (λ a. record s { auth = a }) (sym (ap (λ t. t.0.auth) e)),
        (r, ap (λ t. t.1) e),
      )

  pub pass-Within :
      (r : Auth.Reply) (token : Text) (now : ℕ) (call : Call v.mail.Store) (s : State v)
      → Within v token s (pass v r token now call s).0
  pass-Within (Auth.next x) token now call s = handle-Within v token now call s
  pass-Within (Auth.too_many_requests n) token now call s = Within-refl v token s
  pass-Within Auth.authentication_required token now call s = Within-refl v token s
  pass-Within (Auth.unauthorized e) token now call s = Within-refl v token s

  -- A request stays within its session: the node, the mailbox and the WebSocket of any other are what
  -- they were, no identity changes, and of the sessions only the middleware may remove one.
  pub serve-Within :
      (ip : Text) (authorization : Option Text) (now : ℕ) (call : Call v.mail.Store) (s : State v)
      (j : Text)
      → j ≢ text_or (bearer_token authorization) []
      → let t = (serve v ip authorization now call s).0 in
        (get j t.sessions ≡ get j s.sessions)
        × (get j t.clients ≡ get j s.clients)
        × (identity_at v j t ≡ identity_at v j s)
        × ((x : Session) → get j t.auth.sessions ≡ some x → get j s.auth.sessions ≡ some x)
  unfolding serve
  serve-Within ip authorization now call s j d =
      let q : Request = record { path = path_of call; ip = ip; authorization = authorization } in
      let (auth', r) = auth_middleware q now s.auth in
      let (others, same, kept) =
        pass-Within r (text_or (bearer_token authorization) []) now call
          (record s { auth = auth' }) in
      let (a, b) = others j d in
      (a, b, same j, (λ x g. serve_of q now s.auth j x (ap (λ o. get j o.sessions) (sym kept) ∙ g)))
