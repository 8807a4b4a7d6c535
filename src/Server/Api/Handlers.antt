-- ===== src/Server/Api/Handlers.antt =====
-- src/server/secure-server.js: the handlers of the requests about the identity and the node.
pub mod Mail
pub mod Usernames
use chainmail_protocol.Base.{
  ℕ, Bool, List, [], ◌∷◌, ◌++◌, Option, none, some, Text, Bytes, codes, take, drop, length,
}
use chainmail_protocol.Base.Dict.{text_key}
use chainmail_protocol.Crypto.Identity.{
  WalletIdentity, address, address_to_public_key, encryption_public_key,
}
use chainmail_protocol.Network.MailNode.{
  Envelope, Entry, inbox_entry, sent_entry, Message, Answers, Node,
}
use chainmail_protocol.Network.MailNode.Operations.{
  get_inbox, get_message, mark_as_read, delete_message, send_message,
}
use chainmail_protocol.Network.RelayNode.{text_if_any}
use chainmail_protocol.Protocol
use chainmail_protocol.Protocol.SealedEnvelope.{
  SealedEnvelope, SealedDraft, Opened, Chance, new_draft, to, subject, body, build, parse,
}
use chainmail_protocol.Storage.DhtStorage.{text_or}
use chainmail_protocol.Registry
use chainmail_protocol.Registry.{
  register, is_available, get_registration_message, get_by_dmail_address, resolve,
}
use chainmail_protocol.Server.Api.{
  Services, Slot, stopped, running, Data, Server, Public, Listed, opened, unopened, Call, Reply,
  get_session_data, set_session_data, broadcast, new_message, node_stopped,
}

module _ (v : Services) where
  abbrev pub State : Type 0
  State = Server v.mail.Store v.users.Store

  unfoldable pub public_of : WalletIdentity → Public
  unfolding address encryption_public_key
  public_of w = record {
    address = address v.signing w.identity;
    public_key = v.encodings.hex w.identity.public_key;
    encryption_public_key =
        v.encodings.hex (encryption_public_key v.primitives v.encodings w.identity);
    wallet_address = w.wallet_address;
  }

  abbrev pub with_node : Slot v.mail.Store → Data v.mail.Store → Data v.mail.Store
  with_node slot d = record d { node = slot }

  -- The handler that is given to the node: what it can parse is announced.
  abbrev pub announce : Text → Protocol.Result Opened → State → State
  announce token (Protocol.ok m) s = broadcast token (new_message m.timestamp) s
  announce token (Protocol.failed e) s = s

  unfoldable pub announce_all : Text → WalletIdentity → List Envelope → State → State
  unfolding broadcast parse
  announce_all token w [] s = s
  announce_all token w (e ∷ es) s = announce_all token w es (
      announce token
        (parse v.primitives v.encodings v.signing v.sealed_format w.identity (v.sealed e)) s)

  -- What a node has become, with what its handlers were called with since.
  unfoldable pub keep_node :
      Text → WalletIdentity → Node v.mail.Store → Node v.mail.Store → State → State
  unfolding announce_all set_session_data
  keep_node token w old new s =
      set_session_data token (with_node (running w new))
        (announce_all token w (drop (length old.handled) new.handled) s)

  abbrev pub identity_reply : Option WalletIdentity → Option Public
  identity_reply none = none
  identity_reply (some w) = some (public_of w)

  abbrev pub start_node : Text → WalletIdentity → Option v.mail.Store → State → State × Reply
  start_node token w none s = (s, Reply.failed)
  start_node token w (some messages) s = (
    set_session_data token (with_node (running w (record { messages = messages; handled = [] }))) s,
    Reply.started (address v.signing w.identity),
  )

  abbrev pub node_start :
      Text → Option WalletIdentity → Slot v.mail.Store → Option v.mail.Store → State → State × Reply
  node_start token none slot messages s = (s, Reply.not_authenticated)
  node_start token (some w) (running x node) messages s = (s, Reply.already_running)
  node_start token (some w) slot messages s = start_node token w messages s

  abbrev pub node_stop : Text → Slot v.mail.Store → State → State × Reply
  node_stop token (running w node) s = (
    broadcast token node_stopped (set_session_data token (with_node stopped) s),
    Reply.node_is_stopped,
  )
  node_stop token slot s = (s, Reply.node_is_stopped)

  abbrev pub address_if_any : Option WalletIdentity → Option Text
  address_if_any none = none
  address_if_any (some w) = some (address v.signing w.identity)

  abbrev pub node_status : Slot v.mail.Store → Option WalletIdentity → Reply
  node_status (running x node) w = Reply.status (some (address_if_any w))
  node_status slot w = Reply.status none
