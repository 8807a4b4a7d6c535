-- ===== src/Server/Api.antt =====
-- src/server/secure-server.js: what the server keeps of its sessions, and what it is asked and
-- answers. The libraries and the databases are the record `Services`; a request runs without another
-- one in between. The counts of peers are libp2p's and left out, and so is the timer that sends them.
pub mod Handlers
pub mod Routes
pub mod Changes
pub mod Alone
pub mod Guard
pub mod Runs
pub mod Identities
pub mod Sessions
use chainmail_protocol.Base.{
  ℕ, Bool, true, false, List, [], ◌∷◌, ◌++◌, Option, none, some, if◌then◌else◌, Text, Bytes, codes,
}
use chainmail_protocol.Base.Database.{Db}
use chainmail_protocol.Base.Dict.{Dict, get, set, text_key}
use chainmail_protocol.Crypto.{Primitives, Encodings, Signing}
use chainmail_protocol.Crypto.Identity.{WalletIdentity}
use chainmail_protocol.Network.MailNode.{Envelope, Entry, Format, Answers, Node}
use chainmail_protocol.Network.RelayNode.{StoreRequest}
use chainmail_protocol.Protocol.SealedEnvelope.{SealedEnvelope, SealedFormat, Opened, Chance}
use chainmail_protocol.Registry
use chainmail_protocol.Registry.{Registration, Resolved}
use chainmail_protocol.Server.Auth

-- `sent` and `sealed` are an envelope as the node and as its parser read it; `recover` is that of
-- ethers, and `get_bytes` reads a signature, `none` where it throws.
pub record Services : Type 1 where
  pub primitives : Primitives
  pub encodings : Encodings
  pub signing : Signing
  pub sealed_format : SealedFormat
  pub format : Format
  pub sent : SealedEnvelope → Envelope
  pub sealed : Envelope → SealedEnvelope
  pub mail : Db Entry
  pub users : Db Registration
  pub recover : Text → Text → Option Text
  pub get_bytes : Text → Option Bytes
  pub domain : Text

-- What is sent over a WebSocket.
pub data Event : Type 0 where
  init : Text → Bool → Event
  new_message : ℕ → Event
  node_stopped : Event

-- A client: whether `readyState` is 1, and what it was sent.
pub record Client : Type 0 where
  pub is_open : Bool
  pub received : List Event

-- The field `node` of a session: not set, null, or a node that was started, with its identity.
pub data Slot (Store : Type 0) : Type 0 where
  unset stopped : Slot Store
  running : WalletIdentity → Node Store → Slot Store

pub record Data (Store : Type 0) : Type 0 where
  pub identity : Option WalletIdentity
  pub node : Slot Store

-- `published` is what nodes published on the topic, with what they asked relays to store.
pub record Server (Store Users : Type 0) : Type 0 where
  pub auth : Auth.Store
  pub sessions : Dict Text (Data Store)
  pub clients : Dict Text Client
  pub users : Users
  pub published : List (Bytes × Option StoreRequest)

-- The public part of an identity.
pub record Public : Type 0 where
  pub address : Text
  pub public_key : Text
  pub encryption_public_key : Text
  pub wallet_address : Text

-- An entry of the list of messages.
pub data Listed : Type 0 where
  opened : Text → Opened → Text → Bool → Listed
  unopened : Text → Listed

-- The requests behind the middleware. With them stand what the libraries answer: whether the node
-- starts and what its database has, the answers of its peers, and what building a message draws.
pub data Call (Store : Type 0) : Type 0 where
  get_identity node_stop node_status username_me : Call Store
  node_start : Option Store → Call Store
  get_messages : List Answers → Call Store
  get_message delete_message username_check resolve : Text → Call Store
  send_message : Option Text → Option Text → Option Text → Chance → Call Store
  username_message : Option Text → Call Store
  username_register : Option Text → Option Text → Call Store

pub data Reply : Type 0 where
  refused : Auth.Reply → Reply
  missing_fields authentication_failed logged_out not_authenticated already_running failed : Reply
  not_signed_in : Auth.Error → Reply
  logged_in : Text → ℕ → Public → Reply
  identity : Option Public → Reply
  started : Text → Reply
  status : Option (Option Text) → Reply
  node_is_stopped not_running not_found recipient_required invalid_recipient deleted : Reply
  messages : List Listed → Reply
  message : Text → Opened → Reply
  sent : Text → Reply
  available : Bool → Reply
  to_sign : Text → Text → Text → Reply
  registered : Registration → Reply
  username : Option Registration → Reply
  resolved : Resolved → Reply
  registry_error : Registry.Error → Reply

-- What becomes of a WebSocket. `crashed` is an exception that nothing catches.
pub data Connection : Type 0 where
  accepted crashed : Connection
  closed : Auth.Error → Connection

abbrev pub or_empty : {Store : Type 0} → Option (Data Store) → Data Store
or_empty none = record { identity = none; node = unset }
or_empty (some d) = d

abbrev pub receive : Event → Client → Client
receive e client =
    if client.is_open then record client { received = client.received ++ e ∷ [] } else client

abbrev pub send_to : Text → Event → Option Client → Dict Text Client → Dict Text Client
send_to token e none clients = clients
send_to token e (some client) clients = set token (receive e client) clients

module _ {Store Users : Type 0} where
  unfoldable pub get_session_data : Text → Server Store Users → Data Store
  get_session_data token s = or_empty (get token s.sessions)

  unfoldable pub set_session_data :
      Text → (Data Store → Data Store) → Server Store Users → Server Store Users
  unfolding get_session_data
  set_session_data token change s = record s {
    sessions = set token (change (get_session_data token s)) s.sessions;
  }

  -- To the client of one session, as all calls of it name one.
  unfoldable pub broadcast : Text → Event → Server Store Users → Server Store Users
  broadcast token e s = record s { clients = send_to token e (get token s.clients) s.clients }
