-- ===== src/Server/Api/Identities.antt =====
-- src/server/secure-server.js: whose identity a session has.
use chainmail_protocol.Base.{
  ℕ, ◌≡◌, refl, ap, sym, subst, ◌∙◌, Bool, List, [], ◌∷◌, Option, none, some, Text, Bytes, arith,
  text_discrete, to_lower_case,
}
use chainmail_protocol.Base.Database.{some-injective, none-ne-some}
use chainmail_protocol.Base.Dict.{
  get, set, keys, text_key, get-set_self, get-set_ne, get-delete_self, get-delete_ne,
  get-delete_where_of,
}
use chainmail_protocol.Crypto.Identity.{WalletIdentity, address, from_signature}
use chainmail_protocol.Network.MailNode.{Node}
use chainmail_protocol.Network.MailNode.Operations.{handle_incoming_message}
use chainmail_protocol.Network.RelayNode.{text_if_any}
use chainmail_protocol.Storage.DhtStorage.{text_or}
use chainmail_protocol.Server.Auth.{
  Session, Result, ok, err, Request, generate_nonce, forget_nonce, sweep, session_ends,
  authenticate_wallet, create_session, validate_session, destroy_session, bearer_token,
  auth_middleware,
}
use chainmail_protocol.Server.Auth.Sessions.{
  session_at, serve_of, validate_of, authenticate_sessions,
}
use chainmail_protocol.Server.Api.{
  Services, Slot, unset, stopped, running, Call, or_empty, get_session_data, set_session_data,
}
use chainmail_protocol.Server.Api.Handlers.{State, keep_node}
use chainmail_protocol.Server.Api.Routes.{
  path_of, pass, serve, sign_in, identify, authenticated, log_in, login, log_out, logout, greet,
  online, validated, connect_with, connect, disconnect, arrive_at, arrive,
}
use chainmail_protocol.Server.Api.Changes.{identity_at, Within, keep_node-Within}
use chainmail_protocol.Server.Api.Guard.{pass-Within}
use chainmail_protocol.Server.Api.Runs.{
  Act, challenges, logs_in, logs_out, serves, connects, disconnects, forgets, arrives, sweeps,
  new_server, step, run,
}

module _ (v : Services) where
  -- The identity of a session is that of its wallet.
  abbrev pub IsOwn : Session → Option WalletIdentity → Type 0
  IsOwn x o =
      (w : WalletIdentity) × (o ≡ some w)
      × (x.dmail_address ≡ address v.signing w.identity)
      × (x.wallet_address ≡ to_lower_case w.wallet_address)

  abbrev pub IsSignedIn : State v → Type 0
  IsSignedIn s =
      (k : Text) (x : Session) → get k s.auth.sessions ≡ some x → IsOwn x (identity_at v k s)

  abbrev Shrinks : State v → State v → Type 0
  Shrinks s t =
      ((k : Text) (x : Session) → get k t.auth.sessions ≡ some x → get k s.auth.sessions ≡ some x)
      × ((k : Text) → identity_at v k t ≡ identity_at v k s)

  Shrinks-IsSignedIn : (s t : State v) → Shrinks s t → IsSignedIn s → IsSignedIn t
  Shrinks-IsSignedIn s t h i k x g = subst (IsOwn x) (sym (h.1 k)) (i k x (h.0 k x g))

  sign_in-IsSignedIn :
      (token : Text) (now : ℕ) (w : WalletIdentity) (s : State v)
      → IsSignedIn s
      → IsSignedIn (sign_in v token now w.wallet_address w s).0
  unfolding create_session set_session_data get_session_data
  sign_in-IsSignedIn token now w s i k x g = elim (text_discrete k token) [
    | yes e ↦
        let same : x ≡ session_at now w.wallet_address (address v.signing w.identity) =
          some-injective (
            sym g
            ∙ ap
                (λ j. get j (
                  set token (session_at now w.wallet_address (address v.signing w.identity))
                    s.auth.sessions))
                e
            ∙ get-set_self token _ s.auth.sessions) in
        subst (λ j. IsOwn x (identity_at v j (sign_in v token now w.wallet_address w s).0)) (sym e)
          (
            w,
            ap (λ o. (or_empty o).identity) (get-set_self token _ s.sessions),
            ap (λ y. y.dmail_address) same,
            ap (λ y. y.wallet_address) same,
          )
    | no d ↦
        subst (IsOwn x) (ap (λ o. (or_empty o).identity) (sym (get-set_ne token k _ s.sessions d)))
          (i k x (sym (get-set_ne token k _ s.auth.sessions d) ∙ g))
  ]

  identify-IsSignedIn :
      (token : Text) (now : ℕ) (wallet : Text) (o : Option Bytes) (s : State v)
      → IsSignedIn s
      → IsSignedIn (identify v token now wallet o s).0
  unfolding from_signature
  identify-IsSignedIn token now wallet none s i = i
  identify-IsSignedIn token now wallet (some bytes) s i =
      sign_in-IsSignedIn token now (from_signature v.primitives v.encodings v.signing bytes wallet)
        s i

  authenticated-IsSignedIn :
      (token : Text) (now : ℕ) (signature wallet : Text) (r : Result Text) (s : State v)
      → IsSignedIn s
      → IsSignedIn (authenticated v token now signature wallet r s).0
  authenticated-IsSignedIn token now signature wallet (ok a) s i =
      identify-IsSignedIn token now wallet (v.get_bytes signature) s i
  authenticated-IsSignedIn token now signature wallet (err e) s i = i

  log_in-IsSignedIn :
      (token : Text) (now : ℕ) (signature wallet code : Option Text) (s : State v)
      → IsSignedIn s
      → IsSignedIn (log_in v token now signature wallet code s).0
  log_in-IsSignedIn token now none wallet code s i = i
  log_in-IsSignedIn token now (some g) none code s i = i
  log_in-IsSignedIn token now (some g) (some w) none s i = i
  log_in-IsSignedIn token now (some g) (some w) (some n) s i =
      let (auth', r) = authenticate_wallet Text v.recover g w n now s.auth in
      authenticated-IsSignedIn token now g w r (record s { auth = auth' })
        (Shrinks-IsSignedIn s (record s { auth = auth' })
          (
            (λ k x h.
                ap (get k) (sym (authenticate_sessions Text v.recover k g w n now s.auth)) ∙ h),
            (λ k. refl),
          )
          i)

  log_out-IsSignedIn : (o : Option Text) (s : State v) → IsSignedIn s → IsSignedIn (log_out v o s)
  unfolding destroy_session
  log_out-IsSignedIn none s i = i
  log_out-IsSignedIn (some token) s i =
      Shrinks-IsSignedIn s (record s { auth = destroy_session token s.auth })
        (
          (λ k x g. ground (
            arith,
            get-delete_self token s.auth.sessions,
            get-delete_ne token k s.auth.sessions,
            text_key.dec k token,
            g,
          )),
          (λ k. refl),
        )
        i

  Within-IsSignedIn :
      (token : Text) (s t : State v) → Within v token s t → IsSignedIn s → IsSignedIn t
  Within-IsSignedIn token s t (others, same, kept) =
      Shrinks-IsSignedIn s t ((λ k x g. ap (λ a. get k a.sessions) (sym kept) ∙ g), same)

  serve-IsSignedIn :
      (ip : Text) (authorization : Option Text) (now : ℕ) (call : Call v.mail.Store) (s : State v)
      → IsSignedIn s
      → IsSignedIn (serve v ip authorization now call s).0
  unfolding serve
  serve-IsSignedIn ip authorization now call s i =
      let q : Request = record { path = path_of call; ip = ip; authorization = authorization } in
      let (auth', r) = auth_middleware q now s.auth in
      let token : Text = text_or (bearer_token authorization) [] in
      let s' : State v = record s { auth = auth' } in
      Within-IsSignedIn token s' (pass v r token now call s').0 (pass-Within v r token now call s')
        (Shrinks-IsSignedIn s s' ((λ k x. serve_of q now s.auth k x), (λ k. refl)) i)

  greet-IsSignedIn :
      (token : Text) (x : Session) (o : Option Bool) (s : State v)
      → IsSignedIn s
      → IsSignedIn (greet v token x o s).0
  greet-IsSignedIn token x none s i = i
  greet-IsSignedIn token x (some b) s i = i

  validated-IsSignedIn :
      (token : Text) (r : Result Session) (s : State v)
      → IsSignedIn s
      → IsSignedIn (validated v token r s).0
  validated-IsSignedIn token (ok x) s i =
      greet-IsSignedIn token x (online v (get_session_data token s).node) s i
  validated-IsSignedIn token (err e) s i = i

  connect_with-IsSignedIn :
      (o : Option Text) (now : ℕ) (s : State v)
      → IsSignedIn s
      → IsSignedIn (connect_with v o now s).0
  connect_with-IsSignedIn none now s i = i
  connect_with-IsSignedIn (some token) now s i =
      let (auth', r) = validate_session (some token) now s.auth in
      validated-IsSignedIn token r (record s { auth = auth' })
        (Shrinks-IsSignedIn s (record s { auth = auth' })
          ((λ k x. validate_of (some token) now s.auth k x), (λ k. refl)) i)

  arrive_at-IsSignedIn :
      (token : Text) (slot : Slot v.mail.Store) (bytes : Bytes) (now : ℕ) (s : State v)
      → IsSignedIn s
      → IsSignedIn (arrive_at v token slot bytes now s)
  arrive_at-IsSignedIn token unset bytes now s i = i
  arrive_at-IsSignedIn token stopped bytes now s i = i
  arrive_at-IsSignedIn token (running w node) bytes now s i =
      let node' : Node v.mail.Store =
        handle_incoming_message v.encodings v.format v.mail v.primitives
          (address v.signing w.identity) bytes now node in
      Within-IsSignedIn token s (keep_node v token w node node' s)
        (keep_node-Within v token w node node' s) i

  step-IsSignedIn : (s : State v) (a : Act v.mail.Store) → IsSignedIn s → IsSignedIn (step v s a)
  unfolding step login logout connect disconnect arrive generate_nonce forget_nonce sweep
  step-IsSignedIn s (challenges nonce now) i = i
  step-IsSignedIn s (logs_in token now signature wallet code) i =
      log_in-IsSignedIn token now (text_if_any signature) (text_if_any wallet) (text_if_any code) s
        i
  step-IsSignedIn s (logs_out authorization) i = log_out-IsSignedIn (bearer_token authorization) s i
  step-IsSignedIn s (serves ip authorization now call) i =
      serve-IsSignedIn ip authorization now call s i
  step-IsSignedIn s (connects token now) i = connect_with-IsSignedIn (text_if_any token) now s i
  step-IsSignedIn s (disconnects token) i = i
  step-IsSignedIn s (forgets nonce) i = i
  step-IsSignedIn s (arrives token bytes now) i =
      arrive_at-IsSignedIn token (get_session_data token s).node bytes now s i
  step-IsSignedIn s (sweeps now) i = λ k x g.
      i k x (get-delete_where_of (session_ends now) (keys s.auth.sessions) s.auth.sessions k x g)

  -- Whatever happens to the server since it was started, each session that its authentication has is
  -- one that was signed in: there is an identity under its token, whose address is the one of the
  -- session, and whose wallet is the one of the session in lower case.
  pub run-IsSignedIn :
      (users : v.users.Store) (acts : List (Act v.mail.Store))
      → IsSignedIn (run v (new_server v users) acts)
  unfolding get run
  run-IsSignedIn users acts = go (new_server v users) acts (λ k x g. absurd (none-ne-some x g))
    where
      go : (s : State v) (rest : List (Act v.mail.Store)) → IsSignedIn s → IsSignedIn (run v s rest)
      go s [] i = i
      go s (a ∷ rest) i = go (step v s a) rest (step-IsSignedIn s a i)
