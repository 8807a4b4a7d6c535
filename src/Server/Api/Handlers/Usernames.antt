-- ===== src/Server/Api/Handlers/Usernames.antt =====
-- src/server/secure-server.js: the handlers of the requests about usernames.
use chainmail_protocol.Base.{ℕ, Bool, Option, none, some, Text}
use chainmail_protocol.Base.Dict.{text_key}
use chainmail_protocol.Crypto.Identity.{WalletIdentity, address}
use chainmail_protocol.Registry
use chainmail_protocol.Registry.{
  register, is_available, get_registration_message, get_by_dmail_address, resolve,
}
use chainmail_protocol.Server.Api.{Services, Reply}
use chainmail_protocol.Server.Api.Handlers.{State}

module _ (v : Services) where
  abbrev pub checked : Registry.Result Bool → Reply
  checked (Registry.ok b) = Reply.available b
  checked (Registry.err e) = Reply.registry_error e

  abbrev pub signing_request : Text → Text → Registry.Result Text → Reply
  signing_request name dmail (Registry.ok text) = Reply.to_sign text name dmail
  signing_request name dmail (Registry.err e) = Reply.registry_error e

  abbrev pub username_message : Option Text → Option WalletIdentity → Reply
  username_message none w = Reply.missing_fields
  username_message (some name) none = Reply.not_authenticated
  username_message (some name) (some w) =
      signing_request name (address v.signing w.identity)
        (get_registration_message v.users v.recover v.domain name (address v.signing w.identity))

  abbrev pub registered :
      v.users.Store × Registry.Result Registry.Registration → State v → State v × Reply
  registered (users, Registry.ok r) s = (record s { users = users }, Reply.registered r)
  registered (users, Registry.err e) s = (record s { users = users }, Reply.registry_error e)

  abbrev pub username_register :
      Option WalletIdentity → Option Text → Option Text → ℕ → State v → State v × Reply
  username_register none name signature now s = (s, Reply.not_authenticated)
  username_register (some w) (some name) (some signature) now s =
      registered
        (register v.users v.recover v.domain name (address v.signing w.identity) w.wallet_address
          signature now s.users)
        s
  username_register (some w) _ _ now s = (s, Reply.missing_fields)

  abbrev pub username_me : Option WalletIdentity → State v → Reply
  username_me none s = Reply.username none
  username_me (some w) s =
      Reply.username
        (get_by_dmail_address v.users v.recover v.domain (address v.signing w.identity) s.users)

  abbrev pub resolution : Registry.Result Registry.Resolved → Reply
  resolution (Registry.ok r) = Reply.resolved r
  resolution (Registry.err e) = Reply.registry_error e
