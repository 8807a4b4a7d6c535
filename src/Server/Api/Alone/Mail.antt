-- ===== src/Server/Api/Alone/Mail.antt =====
-- src/server/secure-server.js: requests about messages on servers that are alike for a session.
use chainmail_protocol.Base.{ℕ, List, [], ◌∷◌, ◌++◌, refl, Option, none, some, Text, Bytes}
use chainmail_protocol.Base.Dict.{text_key}
use chainmail_protocol.Crypto.Identity.{WalletIdentity, address, address_to_public_key}
use chainmail_protocol.Network.MailNode.{Entry, Answers, Node}
use chainmail_protocol.Network.MailNode.Operations.{
  get_inbox, get_message, mark_as_read, delete_message, send_message,
}
use chainmail_protocol.Network.RelayNode.{StoreRequest, text_if_any}
use chainmail_protocol.Protocol
use chainmail_protocol.Protocol.SealedEnvelope.{SealedEnvelope, Chance, build}
use chainmail_protocol.Server.Api.{Services, Slot, unset, stopped, running}
use chainmail_protocol.Server.Api.Handlers.{State}
use chainmail_protocol.Server.Api.Handlers.Mail.{
  get_messages, found_message, get_one, delete_one, send_built, send_with, send_to_recipient,
  send_one, draft_for,
}
use chainmail_protocol.Server.Api.Alone.{Alike, AlikeReplies, publish-Alike, keep_node-Alike}

module _ (v : Services) (token : Text) (a b : List (Bytes × Option StoreRequest)) where
  pub get_messages-Alike :
      (now : ℕ) (w : Option WalletIdentity) (slot : Slot v.mail.Store) (answers : List Answers)
      (s t : State v)
      → Alike v token a b s t
      → AlikeReplies v token a b
          (get_messages v token now w slot answers s)
          (get_messages v token now w slot answers t)
  get_messages-Alike now w unset answers s t h = (refl, h)
  get_messages-Alike now w stopped answers s t h = (refl, h)
  get_messages-Alike now w (running x node) answers s t h = (
    refl,
    keep_node-Alike v token a b x node (get_inbox v.encodings v.format v.mail now answers node).0 s
        t h,
  )

  found_message-Alike :
      (id : Text) (w : Option WalletIdentity) (x : WalletIdentity) (node : Node v.mail.Store)
      (o : Option Entry) (s t : State v)
      → Alike v token a b s t
      → AlikeReplies v token a b
          (found_message v token id w x node o s)
          (found_message v token id w x node o t)
  found_message-Alike id w x node none s t h = (refl, h)
  found_message-Alike id w x node (some entry) s t h = (
    refl,
    keep_node-Alike v token a b x node (mark_as_read v.encodings v.format v.mail id node) s t h,
  )

  pub get_one-Alike :
      (id : Text) (w : Option WalletIdentity) (slot : Slot v.mail.Store) (s t : State v)
      → Alike v token a b s t
      → AlikeReplies v token a b (get_one v token id w slot s) (get_one v token id w slot t)
  get_one-Alike id w unset s t h = (refl, h)
  get_one-Alike id w stopped s t h = (refl, h)
  get_one-Alike id w (running x node) s t h =
      found_message-Alike id w x node (get_message v.encodings v.format v.mail id node) s t h

  pub delete_one-Alike :
      (id : Text) (slot : Slot v.mail.Store) (s t : State v)
      → Alike v token a b s t
      → AlikeReplies v token a b (delete_one v token id slot s) (delete_one v token id slot t)
  delete_one-Alike id unset s t h = (refl, h)
  delete_one-Alike id stopped s t h = (refl, h)
  delete_one-Alike id (running x node) s t h = (
    refl,
    keep_node-Alike v token a b x node (delete_message v.encodings v.format v.mail id node) s t h,
  )

  send_built-Alike :
      (x : WalletIdentity) (node : Node v.mail.Store) (now : ℕ) (r : Protocol.Result SealedEnvelope)
      (s t : State v)
      → Alike v token a b s t
      → AlikeReplies v token a b
          (send_built v token x node now r s)
          (send_built v token x node now r t)
  send_built-Alike x node now (Protocol.failed e) s t h = (refl, h)
  send_built-Alike x node now (Protocol.ok e) s t h =
      let (node', bytes, request, id) =
        send_message v.encodings v.format v.mail (address v.signing x.identity) (v.sent e) now
          node in
      (
        refl,
        keep_node-Alike v token a b x node node'
            (record s { published = s.published ++ (bytes, request) ∷ [] })
            (record t { published = t.published ++ (bytes, request) ∷ [] })
            (publish-Alike v token a b (bytes, request) s t h),
      )

  send_with-Alike :
      (w : Option WalletIdentity) (x : WalletIdentity) (node : Node v.mail.Store) (to : Text)
      (key : Option Bytes) (subject_text body_text : Option Text) (now : ℕ) (r : Chance)
      (s t : State v)
      → Alike v token a b s t
      → AlikeReplies v token a b
          (send_with v token w x node to key subject_text body_text now r s)
          (send_with v token w x node to key subject_text body_text now r t)
  send_with-Alike w x node to none subject_text body_text now r s t h = (refl, h)
  send_with-Alike none x node to (some key) subject_text body_text now r s t h = (refl, h)
  send_with-Alike (some w) x node to (some key) subject_text body_text now r s t h =
      send_built-Alike x node now
        (build v.primitives v.encodings v.signing v.sealed_format r
          (draft_for v w to key subject_text body_text))
        s t h

  send_to_recipient-Alike :
      (w : Option WalletIdentity) (x : WalletIdentity) (node : Node v.mail.Store)
      (to subject_text body_text : Option Text) (now : ℕ) (r : Chance) (s t : State v)
      → Alike v token a b s t
      → AlikeReplies v token a b
          (send_to_recipient v token w x node to subject_text body_text now r s)
          (send_to_recipient v token w x node to subject_text body_text now r t)
  send_to_recipient-Alike w x node none subject_text body_text now r s t h = (refl, h)
  send_to_recipient-Alike w x node (some to) subject_text body_text now r s t h =
      send_with-Alike w x node to (address_to_public_key v.signing to) subject_text body_text now r
        s t h

  pub send_one-Alike :
      (w : Option WalletIdentity) (slot : Slot v.mail.Store)
      (to subject_text body_text : Option Text) (now : ℕ) (r : Chance) (s t : State v)
      → Alike v token a b s t
      → AlikeReplies v token a b
          (send_one v token w slot to subject_text body_text now r s)
          (send_one v token w slot to subject_text body_text now r t)
  send_one-Alike w unset to subject_text body_text now r s t h = (refl, h)
  send_one-Alike w stopped to subject_text body_text now r s t h = (refl, h)
  send_one-Alike w (running x node) to subject_text body_text now r s t h =
      send_to_recipient-Alike w x node (text_if_any to) subject_text body_text now r s t h
