-- ===== src/Server/Api/Changes.antt =====
-- src/server/secure-server.js: what may change within one session.
pub mod Calls
use chainmail_protocol.Base.{
  ℕ, ◌≡◌, ◌≢◌, refl, ap, sym, subst, ◌∙◌, Bool, true, false, List, [], ◌∷◌, ◌++◌, Option, none,
  some, if◌then◌else◌, Text, Bytes, arith, text_discrete, drop, length, Bool-cases,
}
use chainmail_protocol.Base.Dict.{get, set, text_key, get-set_self, get-set_ne, get-set}
use chainmail_protocol.Crypto.Identity.{WalletIdentity, address, address_to_public_key}
use chainmail_protocol.Network.MailNode.{Envelope, Entry, Answers, Node}
use chainmail_protocol.Network.MailNode.Operations.{
  get_inbox, get_message, mark_as_read, delete_message, send_message,
}
use chainmail_protocol.Network.RelayNode.{text_if_any}
use chainmail_protocol.Protocol
use chainmail_protocol.Protocol.SealedEnvelope.{SealedEnvelope, Opened, Chance, parse, build}
use chainmail_protocol.Registry
use chainmail_protocol.Registry.{register}
use chainmail_protocol.Server.Auth
use chainmail_protocol.Server.Auth.{
  Session, validate_session, bearer_token, auth_middleware, check_rate_limit, check_token,
}
use chainmail_protocol.Server.Auth.Sessions.{limit_sessions}
use chainmail_protocol.Server.Api.{
  Services, Event, Client, Slot, unset, stopped, running, Data, Server, Call, Reply, or_empty,
  send_to, receive, new_message, node_stopped, get_session_data, set_session_data, broadcast,
}
use chainmail_protocol.Server.Api.Handlers.{
  State, with_node, announce, announce_all, keep_node, start_node, node_start, node_stop,
}
use chainmail_protocol.Server.Api.Handlers.Mail.{
  get_messages, found_message, get_one, delete_one, send_built, send_with, send_to_recipient,
  send_one, draft_for,
}
use chainmail_protocol.Server.Api.Handlers.Usernames.{registered, username_register}
use chainmail_protocol.Server.Api.Routes.{handle, path_of, pass, serve}

module _ (v : Services) where
  -- The identity of a session.
  abbrev pub identity_at : Text → State v → Option WalletIdentity
  identity_at j s = (or_empty (get j s.sessions)).identity

  -- Outside the session of the token nothing has changed, neither has any identity, nor has what the
  -- middleware keeps.
  abbrev pub Within : Text → State v → State v → Type 0
  Within token s t =
      ((j : Text)
        → j ≢ token
        → (get j t.sessions ≡ get j s.sessions) × (get j t.clients ≡ get j s.clients))
      × ((j : Text) → identity_at j t ≡ identity_at j s)
      × (t.auth ≡ s.auth)

  pub Within-refl : (token : Text) (s : State v) → Within token s s
  Within-refl token s = ((λ j d. (refl, refl)), (λ j. refl), refl)

  pub Within-trans :
      (token : Text) (s t u : State v) → Within token s t → Within token t u → Within token s u
  Within-trans token s t u h k = (
    (λ j d. ((k.0 j d).0 ∙ (h.0 j d).0, (k.0 j d).1 ∙ (h.0 j d).1)),
    (λ j. k.1 j ∙ h.1 j),
    k.2 ∙ h.2,
  )

  pub set_session_data-Within :
      (token : Text) (slot : Slot v.mail.Store) (s : State v)
      → Within token s (set_session_data token (with_node v slot) s)
  unfolding set_session_data get_session_data
  set_session_data-Within token slot s = (
    (λ j d. (get-set_ne token j _ s.sessions d, refl)),
    (λ j. elim (text_discrete j token) [
      | yes e ↦
          ap (λ k. identity_at k (set_session_data token (with_node v slot) s)) e
          ∙ ap (λ o. (or_empty o).identity) (get-set_self token _ s.sessions)
          ∙ ap (λ k. identity_at k s) (sym e)
      | no d ↦ ap (λ o. (or_empty o).identity) (get-set_ne token j _ s.sessions d)
    ]),
    refl,
  )

  pub broadcast-Within :
      (token : Text) (e : Event) (s : State v) → Within token s (broadcast token e s)
  unfolding broadcast
  broadcast-Within token e s = ((λ j d. (refl, kept j d (get token s.clients))), (λ j. refl), refl)
    where
      kept :
          (j : Text)
          → j ≢ token
          → (o : Option Client) → get j (send_to token e o s.clients) ≡ get j s.clients
      kept j d none = refl
      kept j d (some client) = get-set_ne token j (receive e client) s.clients d

  announce-Within :
      (token : Text) (r : Protocol.Result Opened) (s : State v)
      → Within token s (announce v token r s)
  announce-Within token (Protocol.ok m) s = broadcast-Within token (new_message m.timestamp) s
  announce-Within token (Protocol.failed e) s = Within-refl token s

  announce_all-Within :
      (token : Text) (w : WalletIdentity) (es : List Envelope) (s : State v)
      → Within token s (announce_all v token w es s)
  unfolding announce_all
  announce_all-Within token w [] s = Within-refl token s
  announce_all-Within token w (e ∷ es) s =
      let r = parse v.primitives v.encodings v.signing v.sealed_format w.identity (v.sealed e) in
      Within-trans token s (announce v token r s) (announce_all v token w es (announce v token r s))
        (announce-Within token r s) (announce_all-Within token w es (announce v token r s))

  pub keep_node-Within :
      (token : Text) (w : WalletIdentity) (old new : Node v.mail.Store) (s : State v)
      → Within token s (keep_node v token w old new s)
  unfolding keep_node
  keep_node-Within token w old new s =
      let es : List Envelope = drop (length old.handled) new.handled in
      Within-trans token s (announce_all v token w es s)
        (set_session_data token (with_node v (running w new)) (announce_all v token w es s))
        (announce_all-Within token w es s)
        (set_session_data-Within token (running w new) (announce_all v token w es s))
