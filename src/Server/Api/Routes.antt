-- ===== src/Server/Api/Routes.antt =====
-- src/server/secure-server.js: the routes, with the middleware in front of them, and the WebSockets.
use chainmail_protocol.Server.Api.Handlers.{identity_reply, node_start, node_stop, node_status}
use chainmail_protocol.Server.Api.Handlers.Mail.{
  list_all, get_messages, get_one, send_one, delete_one,
}
use chainmail_protocol.Server.Api.Handlers.Usernames.{
  checked, username_message, username_register, username_me, resolution,
}
use chainmail_protocol.Base.{
  ℕ, Bool, true, false, [], ◌∷◌, ◌++◌, Option, none, some, Text, Bytes, codes,
}
use chainmail_protocol.Base.Dict.{set, delete, text_key}
use chainmail_protocol.Crypto.Identity.{
  WalletIdentity, address, from_signature, address_to_public_key,
}
use chainmail_protocol.Network.MailNode.Operations.{
  handle_incoming_message, get_inbox, get_message, mark_as_read, delete_message, send_message,
}
use chainmail_protocol.Network.RelayNode.{text_if_any}
use chainmail_protocol.Storage.DhtStorage.{text_or}
use chainmail_protocol.Protocol.SealedEnvelope.{build}
use chainmail_protocol.Registry.{
  register, is_available, get_registration_message, get_by_dmail_address, resolve,
}
use chainmail_protocol.Server.Auth
use chainmail_protocol.Server.Auth.{
  Session, authenticate_wallet, create_session, validate_session, destroy_session, generate_nonce,
  forget_nonce, sweep, auth_middleware, bearer_token,
}
use chainmail_protocol.Server.Api.{
  Services, init, Slot, unset, stopped, running, Data, Call, Reply, Connection, accepted, crashed,
  closed, get_session_data, set_session_data, broadcast,
}
use chainmail_protocol.Server.Api.Handlers.{State, public_of, keep_node}

-- The path of a request, below `/api`.
abbrev pub path_of : {Store : Type 0} → Call Store → Text
path_of Call.get_identity = codes "/identity"
path_of (Call.node_start messages) = codes "/node/start"
path_of Call.node_stop = codes "/node/stop"
path_of Call.node_status = codes "/node/status"
path_of (Call.get_messages answers) = codes "/messages"
path_of (Call.get_message id) = codes "/messages/" ++ id
path_of (Call.send_message recipient subject_text body_text r) = codes "/messages"
path_of (Call.delete_message id) = codes "/messages/" ++ id
path_of (Call.username_check name) = codes "/username/check/" ++ name
path_of (Call.username_message name) = codes "/username/register-message"
path_of (Call.username_register name signature) = codes "/username/register"
path_of Call.username_me = codes "/username/me"
path_of (Call.resolve name) = codes "/resolve/" ++ name

module _ (v : Services) where
  -- The handler of a request, which runs with the token of its session.
  unfoldable pub handle : Text → ℕ → Call v.mail.Store → State v → State v × Reply
  unfolding keep_node list_all public_of get_session_data set_session_data broadcast build get_inbox
      get_message mark_as_read delete_message send_message register is_available
      get_registration_message get_by_dmail_address resolve address address_to_public_key
  handle token now call s =
      let d = get_session_data token s in
      elim call [
        | Call.get_identity ↦ (s, Reply.identity (identity_reply v d.identity))
        | Call.node_start messages ↦ node_start v token d.identity d.node messages s
        | Call.node_stop ↦ node_stop v token d.node s
        | Call.node_status ↦ (s, node_status v d.node d.identity)
        | Call.get_messages answers ↦ get_messages v token now d.identity d.node answers s
        | Call.get_message id ↦ get_one v token id d.identity d.node s
        | Call.send_message recipient subject_text body_text r ↦
            send_one v token d.identity d.node recipient subject_text body_text now r s
        | Call.delete_message id ↦ delete_one v token id d.node s
        | Call.username_check name ↦
            (s, checked v (is_available v.users v.recover v.domain name s.users))
        | Call.username_message name ↦ (s, username_message v (text_if_any name) d.identity)
        | Call.username_register name signature ↦
            username_register v d.identity (text_if_any name) (text_if_any signature) now s
        | Call.username_me ↦ (s, username_me v d.identity s)
        | Call.resolve name ↦ (s, resolution v (resolve v.users v.recover v.domain name s.users))
      ]

  abbrev pub pass : Auth.Reply → Text → ℕ → Call v.mail.Store → State v → State v × Reply
  pass (Auth.next x) token now call s = handle token now call s
  pass r token now call s = (s, Reply.refused r)

  -- `ip` and `authorization` are those of the request.
  unfoldable pub serve : Text → Option Text → ℕ → Call v.mail.Store → State v → State v × Reply
  unfolding handle auth_middleware bearer_token
  serve ip authorization now call s =
      let (auth', reply) =
        auth_middleware (record { path = path_of call; ip = ip; authorization = authorization }) now
          s.auth in
      pass reply (text_or (bearer_token authorization) []) now call (record s { auth = auth' })

  abbrev pub with_identity : WalletIdentity → Data v.mail.Store → Data v.mail.Store
  with_identity w d = record d { identity = some w }

  -- The session of an identity.
  abbrev pub sign_in : Text → ℕ → Text → WalletIdentity → State v → State v × Reply
  sign_in token now wallet w s =
      let (auth', expires) =
        create_session token now wallet (address v.signing w.identity) s.auth in
      (
        set_session_data token (with_identity w) (record s { auth = auth' }),
        Reply.logged_in token expires (public_of v w),
      )

  abbrev pub identify : Text → ℕ → Text → Option Bytes → State v → State v × Reply
  identify token now wallet none s = (s, Reply.authentication_failed)
  identify token now wallet (some bytes) s =
      sign_in token now wallet (from_signature v.primitives v.encodings v.signing bytes wallet) s

  abbrev pub authenticated : Text → ℕ → Text → Text → Auth.Result Text → State v → State v × Reply
  authenticated token now signature wallet (Auth.err e) s = (s, Reply.not_signed_in e)
  authenticated token now signature wallet (Auth.ok a) s =
      identify token now wallet (v.get_bytes signature) s

  abbrev pub log_in : Text → ℕ → Option Text → Option Text → Option Text → State v → State v × Reply
  log_in token now (some signature) (some wallet) (some nonce) s =
      let (auth', result) = authenticate_wallet Text v.recover signature wallet nonce now s.auth in
      authenticated token now signature wallet result (record s { auth = auth' })
  log_in token now _ _ _ s = (s, Reply.missing_fields)

  -- `token` is the random token of the session, if there is one.
  unfoldable pub login :
      Text → ℕ → Option Text → Option Text → Option Text → State v → State v × Reply
  unfolding public_of authenticate_wallet from_signature create_session set_session_data address
  login token now signature wallet nonce s =
      log_in token now (text_if_any signature) (text_if_any wallet) (text_if_any nonce) s

  abbrev pub log_out : Option Text → State v → State v
  log_out none s = s
  log_out (some token) s = record s { auth = destroy_session token s.auth }

  unfoldable pub logout : Option Text → State v → State v × Reply
  unfolding destroy_session bearer_token
  logout authorization s = (log_out (bearer_token authorization) s, Reply.logged_out)

  abbrev pub online : Slot v.mail.Store → Option Bool
  online unset = none
  online stopped = some false
  online (running w node) = some true

  -- Reading a field of `undefined` is an exception.
  abbrev pub greet : Text → Session → Option Bool → State v → State v × Connection
  greet token x none s = (
    record s { clients = set token (record { is_open = true; received = [] }) s.clients },
    crashed,
  )
  greet token x (some b) s = (
    record s {
      clients =
          set token (record { is_open = true; received = init x.dmail_address b ∷ [] }) s.clients;
    },
    accepted,
  )

  abbrev pub validated : Text → Auth.Result Session → State v → State v × Connection
  validated token (Auth.err e) s = (s, closed e)
  validated token (Auth.ok x) s = greet token x (online (get_session_data token s).node) s

  abbrev pub connect_with : Option Text → ℕ → State v → State v × Connection
  connect_with none now s = (s, closed Auth.no_token)
  connect_with (some token) now s =
      let (auth', result) = validate_session (some token) now s.auth in
      validated token result (record s { auth = auth' })

  unfoldable pub connect : Option Text → ℕ → State v → State v × Connection
  unfolding validate_session get_session_data
  connect token now s = connect_with (text_if_any token) now s

  unfoldable pub disconnect : Text → State v → State v
  disconnect token s = record s { clients = delete token s.clients }

  abbrev pub arrive_at : Text → Slot v.mail.Store → Bytes → ℕ → State v → State v
  arrive_at token (running w node) bytes now s =
      keep_node v token w node
        (handle_incoming_message v.encodings v.format v.mail v.primitives
          (address v.signing w.identity) bytes now node)
        s
  arrive_at token slot bytes now s = s

  -- A message of the topic reaches the node of a session.
  unfoldable pub arrive : Text → Bytes → ℕ → State v → State v
  unfolding keep_node handle_incoming_message address get_session_data
  arrive token bytes now s = arrive_at token (get_session_data token s).node bytes now s
