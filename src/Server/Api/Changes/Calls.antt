-- ===== src/Server/Api/Changes/Calls.antt =====
-- src/server/secure-server.js: the handler of a request changes its own session only.
use chainmail_protocol.Base.{ℕ, List, [], ◌∷◌, ◌++◌, Option, none, some, Text, Bytes}
use chainmail_protocol.Base.Dict.{text_key}
use chainmail_protocol.Crypto.Identity.{WalletIdentity, address, address_to_public_key}
use chainmail_protocol.Network.MailNode.{Entry, Answers, Node}
use chainmail_protocol.Network.MailNode.Operations.{
  get_inbox, get_message, mark_as_read, delete_message, send_message,
}
use chainmail_protocol.Network.RelayNode.{text_if_any}
use chainmail_protocol.Protocol
use chainmail_protocol.Protocol.SealedEnvelope.{SealedEnvelope, Chance, build}
use chainmail_protocol.Registry
use chainmail_protocol.Registry.{register}
use chainmail_protocol.Server.Api.{
  Services, Slot, unset, stopped, running, Call, node_stopped, get_session_data, set_session_data,
  broadcast,
}
use chainmail_protocol.Server.Api.Handlers.{State, with_node, start_node, node_start, node_stop}
use chainmail_protocol.Server.Api.Handlers.Mail.{
  get_messages, found_message, get_one, delete_one, send_built, send_with, send_to_recipient,
  send_one, draft_for,
}
use chainmail_protocol.Server.Api.Handlers.Usernames.{registered, username_register}
use chainmail_protocol.Server.Api.Routes.{handle}
use chainmail_protocol.Server.Api.Changes.{
  Within-refl, Within-trans, set_session_data-Within, broadcast-Within, keep_node-Within, Within,
}

module _ (v : Services) where
  start_node-Within :
      (token : Text) (w : WalletIdentity) (o : Option v.mail.Store) (s : State v)
      → Within v token s (start_node v token w o s).0
  start_node-Within token w none s = Within-refl v token s
  start_node-Within token w (some messages) s =
      set_session_data-Within v token (running w (record { messages = messages; handled = [] })) s

  node_start-Within :
      (token : Text) (w : Option WalletIdentity) (slot : Slot v.mail.Store)
      (o : Option v.mail.Store) (s : State v)
      → Within v token s (node_start v token w slot o s).0
  node_start-Within token none slot o s = Within-refl v token s
  node_start-Within token (some w) (running x node) o s = Within-refl v token s
  node_start-Within token (some w) unset o s = start_node-Within token w o s
  node_start-Within token (some w) stopped o s = start_node-Within token w o s

  node_stop-Within :
      (token : Text) (slot : Slot v.mail.Store) (s : State v)
      → Within v token s (node_stop v token slot s).0
  node_stop-Within token unset s = Within-refl v token s
  node_stop-Within token stopped s = Within-refl v token s
  node_stop-Within token (running w node) s =
      let t : State v = set_session_data token (with_node v stopped) s in
      Within-trans v token s t (broadcast token node_stopped t)
        (set_session_data-Within v token stopped s) (broadcast-Within v token node_stopped t)

  get_messages-Within :
      (token : Text) (now : ℕ) (w : Option WalletIdentity) (slot : Slot v.mail.Store)
      (answers : List Answers) (s : State v)
      → Within v token s (get_messages v token now w slot answers s).0
  get_messages-Within token now w unset answers s = Within-refl v token s
  get_messages-Within token now w stopped answers s = Within-refl v token s
  get_messages-Within token now w (running x node) answers s =
      keep_node-Within v token x node (get_inbox v.encodings v.format v.mail now answers node).0 s

  found_message-Within :
      (token id : Text) (w : Option WalletIdentity) (x : WalletIdentity) (node : Node v.mail.Store)
      (o : Option Entry) (s : State v)
      → Within v token s (found_message v token id w x node o s).0
  found_message-Within token id w x node none s = Within-refl v token s
  found_message-Within token id w x node (some entry) s =
      keep_node-Within v token x node (mark_as_read v.encodings v.format v.mail id node) s

  get_one-Within :
      (token id : Text) (w : Option WalletIdentity) (slot : Slot v.mail.Store) (s : State v)
      → Within v token s (get_one v token id w slot s).0
  get_one-Within token id w unset s = Within-refl v token s
  get_one-Within token id w stopped s = Within-refl v token s
  get_one-Within token id w (running x node) s =
      found_message-Within token id w x node (get_message v.encodings v.format v.mail id node) s

  delete_one-Within :
      (token id : Text) (slot : Slot v.mail.Store) (s : State v)
      → Within v token s (delete_one v token id slot s).0
  delete_one-Within token id unset s = Within-refl v token s
  delete_one-Within token id stopped s = Within-refl v token s
  delete_one-Within token id (running x node) s =
      keep_node-Within v token x node (delete_message v.encodings v.format v.mail id node) s

  send_built-Within :
      (token : Text) (x : WalletIdentity) (node : Node v.mail.Store) (now : ℕ)
      (r : Protocol.Result SealedEnvelope) (s : State v)
      → Within v token s (send_built v token x node now r s).0
  send_built-Within token x node now (Protocol.failed e) s = Within-refl v token s
  send_built-Within token x node now (Protocol.ok e) s =
      let (node', bytes, request, id) =
        send_message v.encodings v.format v.mail (address v.signing x.identity) (v.sent e) now
          node in
      keep_node-Within v token x node node'
        (record s { published = s.published ++ (bytes, request) ∷ [] })

  send_with-Within :
      (token : Text) (w : Option WalletIdentity) (x : WalletIdentity) (node : Node v.mail.Store)
      (to : Text) (key : Option Bytes) (subject_text body_text : Option Text) (now : ℕ) (r : Chance)
      (s : State v)
      → Within v token s (send_with v token w x node to key subject_text body_text now r s).0
  send_with-Within token w x node to none subject_text body_text now r s = Within-refl v token s
  send_with-Within token none x node to (some key) subject_text body_text now r s =
      Within-refl v token s
  send_with-Within token (some w) x node to (some key) subject_text body_text now r s =
      send_built-Within token x node now
        (build v.primitives v.encodings v.signing v.sealed_format r
          (draft_for v w to key subject_text body_text))
        s

  send_to_recipient-Within :
      (token : Text) (w : Option WalletIdentity) (x : WalletIdentity) (node : Node v.mail.Store)
      (to subject_text body_text : Option Text) (now : ℕ) (r : Chance) (s : State v)
      → Within v token s (send_to_recipient v token w x node to subject_text body_text now r s).0
  send_to_recipient-Within token w x node none subject_text body_text now r s =
      Within-refl v token s
  send_to_recipient-Within token w x node (some to) subject_text body_text now r s =
      send_with-Within token w x node to (address_to_public_key v.signing to) subject_text body_text
        now r s

  send_one-Within :
      (token : Text) (w : Option WalletIdentity) (slot : Slot v.mail.Store)
      (to subject_text body_text : Option Text) (now : ℕ) (r : Chance) (s : State v)
      → Within v token s (send_one v token w slot to subject_text body_text now r s).0
  send_one-Within token w unset to subject_text body_text now r s = Within-refl v token s
  send_one-Within token w stopped to subject_text body_text now r s = Within-refl v token s
  send_one-Within token w (running x node) to subject_text body_text now r s =
      send_to_recipient-Within token w x node (text_if_any to) subject_text body_text now r s

  registered-Within :
      (token : Text) (r : v.users.Store × Registry.Result Registry.Registration) (s : State v)
      → Within v token s (registered v r s).0
  registered-Within token (users, Registry.ok r) s = Within-refl v token s
  registered-Within token (users, Registry.err e) s = Within-refl v token s

  username_register-Within :
      (token : Text) (w : Option WalletIdentity) (name signature : Option Text) (now : ℕ)
      (s : State v)
      → Within v token s (username_register v w name signature now s).0
  username_register-Within token none name signature now s = Within-refl v token s
  username_register-Within token (some w) none signature now s = Within-refl v token s
  username_register-Within token (some w) (some name) none now s = Within-refl v token s
  username_register-Within token (some w) (some name) (some signature) now s =
      registered-Within token
        (register v.users v.recover v.domain name (address v.signing w.identity) w.wallet_address
          signature now s.users)
        s

  pub handle-Within :
      (token : Text) (now : ℕ) (call : Call v.mail.Store) (s : State v)
      → Within v token s (handle v token now call s).0
  unfolding handle
  handle-Within token now Call.get_identity s = Within-refl v token s
  handle-Within token now (Call.node_start o) s =
      let d = get_session_data token s in node_start-Within token d.identity d.node o s
  handle-Within token now Call.node_stop s =
      node_stop-Within token (get_session_data token s).node s
  handle-Within token now Call.node_status s = Within-refl v token s
  handle-Within token now (Call.get_messages answers) s =
      let d = get_session_data token s in get_messages-Within token now d.identity d.node answers s
  handle-Within token now (Call.get_message id) s =
      let d = get_session_data token s in get_one-Within token id d.identity d.node s
  handle-Within token now (Call.delete_message id) s =
      delete_one-Within token id (get_session_data token s).node s
  handle-Within token now (Call.send_message to subject_text body_text r) s =
      let d = get_session_data token s in
      send_one-Within token d.identity d.node to subject_text body_text now r s
  handle-Within token now (Call.username_check name) s = Within-refl v token s
  handle-Within token now (Call.username_message name) s = Within-refl v token s
  handle-Within token now (Call.username_register name signature) s =
      username_register-Within token (get_session_data token s).identity (text_if_any name)
        (text_if_any signature) now s
  handle-Within token now Call.username_me s = Within-refl v token s
  handle-Within token now (Call.resolve name) s = Within-refl v token s
