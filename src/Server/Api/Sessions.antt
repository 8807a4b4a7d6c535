-- ===== src/Server/Api/Sessions.antt =====
-- src/server/secure-server.js: who a request is answered as, and what a login leads to.
use chainmail_protocol.Base.{
  ◌≤◌, ◌+◌, ℕ, ◌≡◌, refl, ap, sym, subst, ◌∙◌, false, List, [], ◌∷◌, ◌++◌, Option, none, some, Text,
  Bytes, arith,
}
use chainmail_protocol.Base.Dict.{get, text_key, get-set_self}
use chainmail_protocol.Crypto.Identity.{WalletIdentity, address, from_signature}
use chainmail_protocol.Network.RelayNode.{text_if_any}
use chainmail_protocol.Storage.DhtStorage.{text_or}
use chainmail_protocol.Server.Auth
use chainmail_protocol.Server.Auth.{
  Session, Result, ok, err, Request, generate_nonce, forget_nonce, sweep, session_ends,
  authenticate_wallet, create_session, validate_session, destroy_session, bearer_token,
  auth_middleware,
}
use chainmail_protocol.Server.Auth.Sessions.{
  session_at, serve_of, validate_of, authenticate_sessions,
}
use chainmail_protocol.Server.Api.{
  Services, Call, Reply, or_empty, get_session_data, set_session_data,
}
use chainmail_protocol.Server.Api.Handlers.{State}
use chainmail_protocol.Server.Api.Routes.{
  handle, path_of, pass, serve, with_identity, sign_in, identify, authenticated, log_in, login,
  greet, online, validated, connect,
}
use chainmail_protocol.Server.Api.Alone.{own, Alike, own-Alike}
use chainmail_protocol.Server.Api.Alone.Calls.{handle-Alike}
use chainmail_protocol.Server.Auth.{
  Allowance, remaining, check_rate_limit, check_token, is_public, session_duration,
}
use chainmail_protocol.Server.Auth.Sessions.{limit_sessions}
use chainmail_protocol.Server.Api.{Public, crashed}
use chainmail_protocol.Server.Api.Guard.{path_of-is_private, validate_session-sessions}
use chainmail_protocol.Server.Api.Runs.{Act, new_server, run}
use chainmail_protocol.Server.Api.Identities.{IsOwn, run-IsSignedIn}

auth_middleware-next :
    (r : Request) (token : Text) (now n : ℕ) (s : Auth.Store) (x : Session)
    → is_public r.path ≡ false
    → bearer_token r.authorization ≡ some token
    → (validate_session (some token) now s).1 ≡ ok x
    → (check_rate_limit r.ip now s).1 ≡ remaining n
    → (auth_middleware r now s).1 ≡ Auth.next (some x)
unfolding auth_middleware check_token
auth_middleware-next r token now n s x p b h k = ground (
  arith,
  p,
  b,
  k,
  validate_session-sessions (some token) now s (check_rate_limit r.ip now s).0
        (limit_sessions r.ip now s)
      ∙ h,
)

text_or-empty : (t : Text) → text_or (some t) [] ≡ t
text_or-empty [] = refl
text_or-empty (c ∷ t) = refl

expires_of : Reply → ℕ
expires_of (Reply.logged_in token expires p) = expires
expires_of _ = 0

module _ (v : Services) where
  -- The request as the middleware reads it.
  abbrev request_of : Text → Option Text → Call v.mail.Store → Request
  request_of ip authorization call = record {
    path = path_of call;
    ip = ip;
    authorization = authorization;
  }

  -- A request that is let through is handled with the token that it brings.
  serve-passed :
      (ip : Text) (authorization : Option Text) (token : Text) (now : ℕ) (call : Call v.mail.Store)
      (s : State v) (o : Option Session)
      → bearer_token authorization ≡ some token
      → (auth_middleware (request_of ip authorization call) now s.auth).1 ≡ Auth.next o
      → serve v ip authorization now call s
        ≡ handle v token now call
            (record s { auth = (auth_middleware (request_of ip authorization call) now s.auth).0 })
  unfolding serve
  serve-passed ip authorization token now call s o b h =
      let t : State v = record s {
        auth = (auth_middleware (request_of ip authorization call) now s.auth).0;
      } in
      ap (λ r. pass v r (text_or (bearer_token authorization) []) now call t) h
      ∙ ap (λ j. handle v j now call t) (ap (λ o. text_or o []) b ∙ text_or-empty token)

  -- A request is answered as the session that it brings the token of: whatever happened since the
  -- server was started, if the token is valid and the rate limit lets the request through, the reply
  -- is the one of a server that has the same usernames and no other session, and the identity of that
  -- session has the address and, in lower case, the wallet for which the token was given. The data and
  -- the client of the session and the usernames become what they become there, and what is published
  -- there is published.
  pub serve-own :
      (users : v.users.Store) (acts : List (Act v.mail.Store)) (ip : Text)
      (authorization : Option Text) (token : Text) (now n : ℕ) (call : Call v.mail.Store)
      (x : Session)
      → bearer_token authorization ≡ some token
      → (validate_session (some token) now (run v (new_server v users) acts).auth).1 ≡ ok x
      → (check_rate_limit ip now (run v (new_server v users) acts).auth).1 ≡ remaining n
      → (let s = run v (new_server v users) acts in
          let (t, reply) = serve v ip authorization now call s in
          let (u, answer) = handle v token now call (own v token s) in
          (reply ≡ answer)
          × IsOwn v x (get_session_data token (own v token s)).identity
          × (get_session_data token t ≡ get_session_data token u)
          × (get token t.clients ≡ get token u.clients)
          × (t.users ≡ u.users)
          × (t.published ≡ s.published ++ u.published))
  unfolding get_session_data
  serve-own users acts ip authorization token now n call x b h k =
      let s : State v = run v (new_server v users) acts in
      let q : Request = request_of ip authorization call in
      let s' : State v = record s { auth = (auth_middleware q now s.auth).0 } in
      let (live, g) = Auth.Sessions.validated token now s.auth x h in
      let (w, e, a, l) = run-IsSignedIn v users acts token x g in
      let alike : Alike v token s.published [] s' (own v token s) = own-Alike v token s in
      let passed = serve-passed ip authorization token now call s (some x) b (
        auth_middleware-next q token now n s.auth x (path_of-is_private {Store = v.mail.Store} call)
          b h k) in
      let (answer, (d, c, u, (p, new, all))) =
        handle-Alike v token s.published [] now call s' (own v token s) alike in
      (
        ap (λ r. r.1) passed ∙ answer,
        (w, sym (ap (λ d. d.identity) alike.0) ∙ e, a, l),
        ap (λ r. get_session_data token r.0) passed ∙ d,
        ap (λ r. get token r.0.clients) passed ∙ c,
        ap (λ r. r.0.users) passed ∙ u,
        ap (λ r. r.0.published) passed ∙ new ∙ ap (s.published ++◌) (sym all),
      )

  -- There are no session data of the token.
  abbrev pub IsUnused : Text → State v → Type 0
  IsUnused token s = get token s.sessions ≡ none

  abbrev Crashes : Text → ℕ → State v × Reply → Type 0
  Crashes token later (t, reply) =
      (expires : ℕ) (p : Public)
      → reply ≡ Reply.logged_in token expires p
      → later ≤ expires
      → (connect v (some token) later t).1 ≡ crashed

  connect-sign_in :
      (c : ℕ) (t : Text) (now later : ℕ) (wallet : Text) (w : WalletIdentity) (s : State v)
      → IsUnused (c ∷ t) s
      → later ≤ now + session_duration
      → (connect v (some (c ∷ t)) later (sign_in v (c ∷ t) now wallet w s).0).1 ≡ crashed
  unfolding connect validate_session create_session set_session_data get_session_data
  connect-sign_in c t now later wallet w s u h =
      let token : Text = c ∷ t in
      let t' : State v = (sign_in v token now wallet w s).0 in
      let (auth', r) = validate_session (some token) later t'.auth in
      let x : Session = session_at now wallet (address v.signing w.identity) in
      let valid : r ≡ ok x = ground (arith, get-set_self token x s.auth.sessions, h) in
      ap (λ r. (validated v token r (record t' { auth = auth' })).1) valid
      ∙ ap (λ o. (greet v token x (online v (or_empty o).node) (record t' { auth = auth' })).1)
          (get-set_self token (with_identity v w (or_empty (get token s.sessions))) s.sessions)
      ∙ ap (λ o. (greet v token x (online v (or_empty o).node) (record t' { auth = auth' })).1) u

  identify-Crashes :
      (c : ℕ) (t : Text) (now later : ℕ) (wallet : Text) (o : Option Bytes) (s : State v)
      → IsUnused (c ∷ t) s
      → Crashes (c ∷ t) later (identify v (c ∷ t) now wallet o s)
  unfolding expires_of create_session
  identify-Crashes c t now later wallet none s u = λ expires p e h. absurd (ground arith)
  identify-Crashes c t now later wallet (some bytes) s u = λ expires p e h.
      connect-sign_in c t now later wallet
        (from_signature v.primitives v.encodings v.signing bytes wallet) s u
        (subst (λ n. later ≤ n) (sym (ap expires_of e)) h)

  authenticated-Crashes :
      (c : ℕ) (t : Text) (now later : ℕ) (signature wallet : Text) (r : Result Text) (s : State v)
      → IsUnused (c ∷ t) s
      → Crashes (c ∷ t) later (authenticated v (c ∷ t) now signature wallet r s)
  authenticated-Crashes c t now later signature wallet (err q) s u =
      λ expires p e h. absurd (ground arith)
  authenticated-Crashes c t now later signature wallet (ok a) s u =
      identify-Crashes c t now later wallet (v.get_bytes signature) s u

  log_in-Crashes :
      (c : ℕ) (t : Text) (now later : ℕ) (signature wallet code : Option Text) (s : State v)
      → IsUnused (c ∷ t) s
      → Crashes (c ∷ t) later (log_in v (c ∷ t) now signature wallet code s)
  log_in-Crashes c t now later none wallet code s u = λ expires p e h. absurd (ground arith)
  log_in-Crashes c t now later (some g) none code s u = λ expires p e h. absurd (ground arith)
  log_in-Crashes c t now later (some g) (some w) none s u = λ expires p e h. absurd (ground arith)
  log_in-Crashes c t now later (some g) (some w) (some n) s u =
      let (auth', r) = authenticate_wallet Text v.recover g w n now s.auth in
      authenticated-Crashes c t now later g w r (record s { auth = auth' }) u

  -- Whoever has logged in, under a token that is not empty and has no data yet, and opens a WebSocket
  -- before starting a node raises an exception that nothing catches, as long as the session lasts.
  pub connect-login :
      (c : ℕ) (t : Text) (now later : ℕ) (signature wallet nonce : Option Text) (s : State v)
      (expires : ℕ) (p : Public)
      → IsUnused (c ∷ t) s
      → (login v (c ∷ t) now signature wallet nonce s).1 ≡ Reply.logged_in (c ∷ t) expires p
      → later ≤ expires
      → (connect v (some (c ∷ t)) later (login v (c ∷ t) now signature wallet nonce s).0).1
        ≡ crashed
  unfolding login
  connect-login c t now later signature wallet nonce s expires p u =
      log_in-Crashes c t now later (text_if_any signature) (text_if_any wallet) (text_if_any nonce)
        s u expires p
