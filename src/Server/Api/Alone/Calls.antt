-- ===== src/Server/Api/Alone/Calls.antt =====
-- src/server/secure-server.js: a request is handled alike on servers that are alike for its session.
use chainmail_protocol.Base.{
  ℕ, List, [], ◌≡◌, refl, ap, subst, ◌∙◌, Option, none, some, Text, Bytes,
}
use chainmail_protocol.Base.Dict.{text_key}
use chainmail_protocol.Crypto.Identity.{WalletIdentity, address}
use chainmail_protocol.Network.RelayNode.{StoreRequest, text_if_any}
use chainmail_protocol.Registry
use chainmail_protocol.Registry.{register, is_available, get_by_dmail_address, resolve}
use chainmail_protocol.Server.Api.{
  Services, Slot, unset, stopped, running, Data, Call, node_stopped, get_session_data,
  set_session_data, Reply,
}
use chainmail_protocol.Server.Api.Handlers.{
  State, with_node, start_node, node_start, node_stop, identity_reply, node_status,
}
use chainmail_protocol.Server.Api.Handlers.Mail.{get_messages, get_one, delete_one, send_one}
use chainmail_protocol.Server.Api.Routes.{handle}
use chainmail_protocol.Server.Api.Handlers.Usernames.{
  registered, username_register, username_me, checked, username_message, resolution,
}
use chainmail_protocol.Server.Api.Alone.Mail.{
  get_messages-Alike, get_one-Alike, delete_one-Alike, send_one-Alike,
}
use chainmail_protocol.Server.Api.Alone.{
  Alike, AlikeReplies, set_session_data-Alike, broadcast-Alike,
}

module _ (v : Services) (token : Text) (a b : List (Bytes × Option StoreRequest)) where
  start_node-Alike :
      (w : WalletIdentity) (o : Option v.mail.Store) (s t : State v)
      → Alike v token a b s t
      → AlikeReplies v token a b (start_node v token w o s) (start_node v token w o t)
  start_node-Alike w none s t h = (refl, h)
  start_node-Alike w (some messages) s t h = (
    refl,
    set_session_data-Alike v token a b (running w (record { messages = messages; handled = [] })) s
        t h,
  )

  node_start-Alike :
      (w : Option WalletIdentity) (slot : Slot v.mail.Store) (o : Option v.mail.Store)
      (s t : State v)
      → Alike v token a b s t
      → AlikeReplies v token a b (node_start v token w slot o s) (node_start v token w slot o t)
  node_start-Alike none slot o s t h = (refl, h)
  node_start-Alike (some w) (running x node) o s t h = (refl, h)
  node_start-Alike (some w) unset o s t h = start_node-Alike w o s t h
  node_start-Alike (some w) stopped o s t h = start_node-Alike w o s t h

  node_stop-Alike :
      (slot : Slot v.mail.Store) (s t : State v)
      → Alike v token a b s t
      → AlikeReplies v token a b (node_stop v token slot s) (node_stop v token slot t)
  node_stop-Alike unset s t h = (refl, h)
  node_stop-Alike stopped s t h = (refl, h)
  node_stop-Alike (running w node) s t h = (
    refl,
    broadcast-Alike v token a b node_stopped (set_session_data token (with_node v stopped) s)
        (set_session_data token (with_node v stopped) t)
        (set_session_data-Alike v token a b stopped s t h),
  )

  registered-Alike :
      (r : v.users.Store × Registry.Result Registry.Registration) (s t : State v)
      → Alike v token a b s t
      → AlikeReplies v token a b (registered v r s) (registered v r t)
  unfolding get_session_data
  registered-Alike (users, Registry.ok r) s t (d, c, u, p) = (refl, (d, c, refl, p))
  registered-Alike (users, Registry.err e) s t (d, c, u, p) = (refl, (d, c, refl, p))

  username_register-Alike :
      (w : Option WalletIdentity) (name signature : Option Text) (now : ℕ) (s t : State v)
      → Alike v token a b s t
      → AlikeReplies v token a b
          (username_register v w name signature now s)
          (username_register v w name signature now t)
  username_register-Alike none name signature now s t h = (refl, h)
  username_register-Alike (some w) none signature now s t h = (refl, h)
  username_register-Alike (some w) (some name) none now s t h = (refl, h)
  username_register-Alike (some w) (some name) (some signature) now s t h =
      let named = λ (users : v.users.Store).
        register v.users v.recover v.domain name (address v.signing w.identity) w.wallet_address
          signature now users in
      subst
        (λ users.
          AlikeReplies v token a b (registered v (named s.users) s) (registered v (named users) t))
        h.2 (registered-Alike (named s.users) s t h)

  username_me-users :
      (w : Option WalletIdentity) (s t : State v)
      → s.users ≡ t.users
      → username_me v w s ≡ username_me v w t
  username_me-users none s t u = refl
  username_me-users (some w) s t u =
      ap
        (λ users.
          Reply.username
            (get_by_dmail_address v.users v.recover v.domain (address v.signing w.identity) users))
        u

  -- What is handled alike whatever the data of the session are is so with the data of each server.
  by_data :
      (f : Data v.mail.Store → State v → State v × Reply) (s t : State v)
      → Alike v token a b s t
      → AlikeReplies v token a b (f (get_session_data token s) s) (f (get_session_data token s) t)
      → AlikeReplies v token a b (f (get_session_data token s) s) (f (get_session_data token t) t)
  by_data f s t h alike =
      subst (λ d. AlikeReplies v token a b (f (get_session_data token s) s) (f d t)) h.0 alike

  pub handle-Alike :
      (now : ℕ) (call : Call v.mail.Store) (s t : State v)
      → Alike v token a b s t
      → AlikeReplies v token a b (handle v token now call s) (handle v token now call t)
  unfolding handle
  handle-Alike now Call.get_identity s t h =
      (ap (λ d. Reply.identity (identity_reply v d.identity)) h.0, h)
  handle-Alike now (Call.node_start o) s t h =
      let d = get_session_data token s in
      by_data (λ d. node_start v token d.identity d.node o) s t h
        (node_start-Alike d.identity d.node o s t h)
  handle-Alike now Call.node_stop s t h =
      by_data (λ d. node_stop v token d.node) s t h
        (node_stop-Alike (get_session_data token s).node s t h)
  handle-Alike now Call.node_status s t h = (ap (λ d. node_status v d.node d.identity) h.0, h)
  handle-Alike now (Call.get_messages answers) s t h =
      let d = get_session_data token s in
      by_data (λ d. get_messages v token now d.identity d.node answers) s t h
        (get_messages-Alike v token a b now d.identity d.node answers s t h)
  handle-Alike now (Call.get_message id) s t h =
      let d = get_session_data token s in
      by_data (λ d. get_one v token id d.identity d.node) s t h
        (get_one-Alike v token a b id d.identity d.node s t h)
  handle-Alike now (Call.delete_message id) s t h =
      by_data (λ d. delete_one v token id d.node) s t h
        (delete_one-Alike v token a b id (get_session_data token s).node s t h)
  handle-Alike now (Call.send_message to subject_text body_text r) s t h =
      let d = get_session_data token s in
      by_data (λ d s. send_one v token d.identity d.node to subject_text body_text now r s) s t h
        (send_one-Alike v token a b d.identity d.node to subject_text body_text now r s t h)
  handle-Alike now (Call.username_check name) s t h =
      (ap (λ users. checked v (is_available v.users v.recover v.domain name users)) h.2, h)
  handle-Alike now (Call.username_message name) s t h =
      (ap (λ d. username_message v (text_if_any name) d.identity) h.0, h)
  handle-Alike now (Call.username_register name signature) s t h =
      by_data
        (λ d s. username_register v d.identity (text_if_any name) (text_if_any signature) now s) s t
        h
        (username_register-Alike (get_session_data token s).identity (text_if_any name)
          (text_if_any signature) now s t h)
  handle-Alike now Call.username_me s t h =
      let i = λ (s : State v). (get_session_data token s).identity in
      (ap (λ d. username_me v d.identity s) h.0 ∙ username_me-users (i t) s t h.2, h)
  handle-Alike now (Call.resolve name) s t h =
      (ap (λ users. resolution v (resolve v.users v.recover v.domain name users)) h.2, h)
