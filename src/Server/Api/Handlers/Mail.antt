-- ===== src/Server/Api/Handlers/Mail.antt =====
-- src/server/secure-server.js: the handlers of the requests about messages.
use chainmail_protocol.Base.{ℕ, List, [], ◌∷◌, ◌++◌, Option, none, some, Text, Bytes, codes, take}
use chainmail_protocol.Base.Dict.{text_key}
use chainmail_protocol.Crypto.Identity.{WalletIdentity, address, address_to_public_key}
use chainmail_protocol.Network.MailNode.{
  Envelope, Entry, inbox_entry, sent_entry, Message, Answers, Node,
}
use chainmail_protocol.Network.MailNode.Operations.{
  get_inbox, get_message, mark_as_read, delete_message, send_message,
}
use chainmail_protocol.Network.RelayNode.{text_if_any}
use chainmail_protocol.Protocol
use chainmail_protocol.Protocol.SealedEnvelope.{
  SealedEnvelope, SealedDraft, Opened, Chance, new_draft, to, subject, body, build, parse,
}
use chainmail_protocol.Storage.DhtStorage.{text_or}
use chainmail_protocol.Server.Api.{Services, Slot, running, Listed, opened, unopened, Reply}
use chainmail_protocol.Server.Api.Handlers.{State, keep_node}

module _ (v : Services) where
  abbrev pub read_sealed : WalletIdentity → Envelope → Protocol.Result Opened
  read_sealed w e = parse v.primitives v.encodings v.signing v.sealed_format w.identity (v.sealed e)

  abbrev pub listed : Message → Protocol.Result Opened → Listed
  listed m (Protocol.ok o) = opened m.id o (take 100 (text_or o.content.body [])) m.read
  listed m (Protocol.failed e) = unopened m.id

  -- Without an identity nothing can be decrypted.
  abbrev pub list_one : Option WalletIdentity → Message → Listed
  list_one none m = unopened m.id
  list_one (some w) m = listed m (read_sealed w m.envelope)

  unfoldable pub list_all : Option WalletIdentity → List Message → List Listed
  unfolding parse
  list_all w [] = []
  list_all w (m ∷ ms) = list_one w m ∷ list_all w ms

  abbrev pub get_messages :
      Text
      → ℕ
      → Option WalletIdentity
      → Slot v.mail.Store
      → List Answers
      → State v
      → State v × Reply
  get_messages token now w (running x node) answers s =
      let (node', ms) = get_inbox v.encodings v.format v.mail now answers node in
      (keep_node v token x node node' s, Reply.messages (list_all w ms))
  get_messages token now w slot answers s = (s, Reply.messages [])

  abbrev pub envelope_of : Entry → Envelope
  envelope_of (inbox_entry e at read) = e
  envelope_of (sent_entry e at) = e

  abbrev pub shown : Text → Protocol.Result Opened → Reply
  shown id (Protocol.ok o) = Reply.message id o
  shown id (Protocol.failed e) = Reply.failed

  abbrev pub show : Text → Option WalletIdentity → Entry → Reply
  show id none v = Reply.failed
  show id (some w) entry = shown id (read_sealed w (envelope_of entry))

  -- It is marked as read before it is decrypted.
  abbrev pub found_message :
      Text
      → Text
      → Option WalletIdentity
      → WalletIdentity
      → Node v.mail.Store
      → Option Entry
      → State v
      → State v × Reply
  found_message token id w x node none s = (s, Reply.not_found)
  found_message token id w x node (some entry) s = (
    keep_node v token x node (mark_as_read v.encodings v.format v.mail id node) s,
    show id w entry,
  )

  abbrev pub get_one :
      Text → Text → Option WalletIdentity → Slot v.mail.Store → State v → State v × Reply
  get_one token id w (running x node) s =
      found_message token id w x node (get_message v.encodings v.format v.mail id node) s
  get_one token id w slot s = (s, Reply.not_running)

  abbrev pub delete_one : Text → Text → Slot v.mail.Store → State v → State v × Reply
  delete_one token id (running x node) s = (
    keep_node v token x node (delete_message v.encodings v.format v.mail id node) s,
    Reply.deleted,
  )
  delete_one token id slot s = (s, Reply.not_running)

  abbrev pub send_built :
      Text
      → WalletIdentity
      → Node v.mail.Store
      → ℕ
      → Protocol.Result SealedEnvelope
      → State v
      → State v × Reply
  send_built token x node now (Protocol.failed e) s = (s, Reply.failed)
  send_built token x node now (Protocol.ok e) s =
      let (node', bytes, request, id) =
        send_message v.encodings v.format v.mail (address v.signing x.identity) (v.sent e) now
          node in
      (
        keep_node v token x node node'
            (record s { published = s.published ++ (bytes, request) ∷ [] }),
        Reply.sent id,
      )

  abbrev pub draft_for : WalletIdentity → Text → Bytes → Option Text → Option Text → SealedDraft
  draft_for w recipient key subject_text body_text = body (text_or body_text []) (
      subject (text_or subject_text (codes "(no subject)"))
        (to recipient key (new_draft w.identity)))

  -- The key of the recipient is the one that its address names.
  abbrev pub send_with :
      Text
      → Option WalletIdentity
      → WalletIdentity
      → Node v.mail.Store
      → Text
      → Option Bytes
      → Option Text
      → Option Text
      → ℕ
      → Chance
      → State v
      → State v × Reply
  send_with token w x node recipient none subject_text body_text now r s =
      (s, Reply.invalid_recipient)
  send_with token none x node recipient (some key) subject_text body_text now r s =
      (s, Reply.failed)
  send_with token (some w) x node recipient (some key) subject_text body_text now r s =
      send_built token x node now
        (build v.primitives v.encodings v.signing v.sealed_format r
          (draft_for w recipient key subject_text body_text))
        s

  abbrev pub send_to_recipient :
      Text
      → Option WalletIdentity
      → WalletIdentity
      → Node v.mail.Store
      → Option Text
      → Option Text
      → Option Text
      → ℕ
      → Chance
      → State v
      → State v × Reply
  send_to_recipient token w x node none subject_text body_text now r s =
      (s, Reply.recipient_required)
  send_to_recipient token w x node (some recipient) subject_text body_text now r s =
      send_with token w x node recipient (address_to_public_key v.signing recipient) subject_text
        body_text now r s

  abbrev pub send_one :
      Text
      → Option WalletIdentity
      → Slot v.mail.Store
      → Option Text
      → Option Text
      → Option Text
      → ℕ
      → Chance
      → State v
      → State v × Reply
  send_one token w (running x node) recipient subject_text body_text now r s =
      send_to_recipient token w x node (text_if_any recipient) subject_text body_text now r s
  send_one token w slot recipient subject_text body_text now r s = (s, Reply.not_running)
