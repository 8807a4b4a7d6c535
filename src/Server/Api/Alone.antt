-- ===== src/Server/Api/Alone.antt =====
-- src/server/secure-server.js: servers that are alike for one session, and the server that has no other.
pub mod Mail
pub mod Calls
use chainmail_protocol.Base.{
  ◌≡◌, refl, ap, sym, ◌∙◌, List, [], ◌∷◌, ◌++◌, Option, none, some, if◌then◌else◌, Text, Bytes,
  drop, length,
}
use chainmail_protocol.Base.Dict.{Dict, get, set, text_key, get-set_self}
use chainmail_protocol.Crypto.Identity.{WalletIdentity}
use chainmail_protocol.Network.MailNode.{Envelope, Node}
use chainmail_protocol.Network.RelayNode.{StoreRequest}
use chainmail_protocol.Protocol
use chainmail_protocol.Protocol.SealedEnvelope.{Opened, parse}
use chainmail_protocol.Server.Api.{
  Services, Event, Client, Slot, Reply, running, or_empty, receive, send_to, new_message,
  get_session_data, set_session_data, broadcast,
}
use chainmail_protocol.Server.Api.Handlers.{State, with_node, announce, announce_all, keep_node}
use mathlib.Core.List.{append-nil, append_assoc}

-- The entry of one key only.
abbrev pub only : {A : Type 0} → Text → Option A → Dict Text A
only token none = []
only token (some x) = set token x []

get-only : {A : Type 0} → (token : Text) (o : Option A) → get token (only token o) ≡ o
unfolding get
get-only token none = refl
get-only token (some x) = get-set_self token x []

-- What a client has become by an event that is sent to it.
abbrev received : Event → Option Client → Option Client
received e none = none
received e (some client) = some (receive e client)

get-send_to :
    (token : Text) (e : Event) (o : Option Client) (clients : Dict Text Client)
    → get token clients ≡ o
    → get token (send_to token e o clients) ≡ received e o
get-send_to token e none clients h = h
get-send_to token e (some client) clients h = get-set_self token (receive e client) clients

module _ (v : Services) where
  -- The server with the session of the token and no other, to which nothing has been published; the
  -- usernames are those of all.
  abbrev pub own : Text → State v → State v
  own token s = record {
    auth = record { sessions = []; nonces = []; rate_limits = [] };
    sessions = only token (get token s.sessions);
    clients = only token (get token s.clients);
    users = s.users;
    published = [];
  }

  -- Two servers with the same data and the same client of the session and the same usernames, and with
  -- the same publications behind `a` and `b`.
  abbrev pub Alike :
      Text
      → List (Bytes × Option StoreRequest)
      → List (Bytes × Option StoreRequest)
      → State v
      → State v
      → Type 0
  Alike token a b s t =
      (get_session_data token s ≡ get_session_data token t)
      × (get token s.clients ≡ get token t.clients)
      × (s.users ≡ t.users)
      × ((p : List (Bytes × Option StoreRequest)) × (s.published ≡ a ++ p) × (t.published ≡ b ++ p))

  pub own-Alike : (token : Text) (s : State v) → Alike token s.published [] s (own token s)
  unfolding get_session_data
  own-Alike token s = (
    ap or_empty (sym (get-only token (get token s.sessions))),
    sym (get-only token (get token s.clients)),
    refl,
    ([], sym (append-nil s.published), refl),
  )

  module _ (token : Text) (a b : List (Bytes × Option StoreRequest)) where
    -- The same reply, and servers that are alike.
    abbrev pub AlikeReplies : State v × Reply → State v × Reply → Type 0
    AlikeReplies x y = (x.1 ≡ y.1) × Alike token a b x.0 y.0

    pub set_session_data-Alike :
        (slot : Slot v.mail.Store) (s t : State v)
        → Alike token a b s t
        → Alike token a b
            (set_session_data token (with_node v slot) s)
            (set_session_data token (with_node v slot) t)
    unfolding set_session_data get_session_data
    set_session_data-Alike slot s t (d, c, u, q) = (
      ap or_empty (get-set_self token _ s.sessions)
          ∙ ap (with_node v slot) d
          ∙ sym (ap or_empty (get-set_self token _ t.sessions)),
      c,
      u,
      q,
    )

    pub broadcast-Alike :
        (e : Event) (s t : State v)
        → Alike token a b s t
        → Alike token a b (broadcast token e s) (broadcast token e t)
    unfolding broadcast get_session_data
    broadcast-Alike e s t (d, c, u, q) = (
      d,
      get-send_to token e (get token s.clients) s.clients refl
          ∙ ap (received e) c
          ∙ sym (get-send_to token e (get token t.clients) t.clients refl),
      u,
      q,
    )

    pub publish-Alike :
        (x : Bytes × Option StoreRequest) (s t : State v)
        → Alike token a b s t
        → Alike token a b
            (record s { published = s.published ++ x ∷ [] })
            (record t { published = t.published ++ x ∷ [] })
    unfolding get_session_data
    publish-Alike x s t (d, c, u, (p, k, l)) = (
      d,
      c,
      u,
      (
        p ++ x ∷ [],
        ap (◌++ (x ∷ [])) k ∙ append_assoc a p (x ∷ []),
        ap (◌++ (x ∷ [])) l ∙ append_assoc b p (x ∷ []),
      ),
    )

    announce-Alike :
        (r : Protocol.Result Opened) (s t : State v)
        → Alike token a b s t
        → Alike token a b (announce v token r s) (announce v token r t)
    announce-Alike (Protocol.ok m) s t h = broadcast-Alike (new_message m.timestamp) s t h
    announce-Alike (Protocol.failed e) s t h = h

    announce_all-Alike :
        (w : WalletIdentity) (es : List Envelope) (s t : State v)
        → Alike token a b s t
        → Alike token a b (announce_all v token w es s) (announce_all v token w es t)
    unfolding announce_all
    announce_all-Alike w [] s t h = h
    announce_all-Alike w (e ∷ es) s t h =
        let r = parse v.primitives v.encodings v.signing v.sealed_format w.identity (v.sealed e) in
        announce_all-Alike w es (announce v token r s) (announce v token r t)
          (announce-Alike r s t h)

    pub keep_node-Alike :
        (w : WalletIdentity) (old new : Node v.mail.Store) (s t : State v)
        → Alike token a b s t
        → Alike token a b (keep_node v token w old new s) (keep_node v token w old new t)
    unfolding keep_node
    keep_node-Alike w old new s t h =
        let es : List Envelope = drop (length old.handled) new.handled in
        set_session_data-Alike (running w new) (announce_all v token w es s)
          (announce_all v token w es t) (announce_all-Alike w es s t h)
