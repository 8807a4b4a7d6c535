-- ===== src/Tests/Api.antt =====
-- src/server/secure-server.js at concrete inputs, over databases that are lists of entries.
use chainmail_protocol.Base.{
  ◌≡◌, ◌≢◌, refl, true, false, List, [], ◌∷◌, ◌++◌, Option, some, Text, codes, arith, text_discrete,
  to_lower_case, starts_with, dec_lt,
}
use chainmail_protocol.Base.Dict.{get, set, text_key, delete_where}
use chainmail_protocol.Crypto.Identity.{from_signature, address}
use chainmail_protocol.Server.Auth
use chainmail_protocol.Server.Auth.{
  Session, ok, remaining, check_rate_limit, recent_requests, validate_session, bearer_token,
  generate_nonce, verify_nonce, check_signer, consume_nonce, authenticate_wallet, create_session,
}
use chainmail_protocol.Server.Api.{
  Services, Call, Reply, Public, crashed, running, get_session_data,
}
use chainmail_protocol.Server.Api.Handlers.{State, public_of}
use chainmail_protocol.Server.Api.Routes.{handle, serve, login, connect}
use chainmail_protocol.Server.Api.Alone.{own}
use chainmail_protocol.Server.Api.Changes.{identity_at}
use chainmail_protocol.Server.Api.Guard.{IsInvalid, serve-refused, serve-Within}
use chainmail_protocol.Server.Api.Runs.{Act, challenges, logs_in, new_server, run}
use chainmail_protocol.Server.Api.Identities.{IsOwn, IsSignedIn, run-IsSignedIn}
use chainmail_protocol.Server.Api.Sessions.{serve-own, connect-login}
use chainmail_protocol.Tests.Entries.{entry_list}
use chainmail_protocol.Network.MailNode.{Entry}
use chainmail_protocol.Tests.Mail.{format, sealed_for}
use chainmail_protocol.Tests.Toy.{toy, plain}
use chainmail_protocol.Tests.Texts.{signing, sealed_format}
use chainmail_protocol.Storage.DhtStorage.{text_or}

-- A signature is the address of its wallet.
abbrev services : Services
services = record {
  primitives = toy;
  encodings = plain;
  signing = signing;
  sealed_format = sealed_format;
  format = format;
  sent = λ e. sealed_for e.routing_token e.timestamp;
  sealed = λ e. record {
    version = codes "2.0.0";
    kind = e.envelope_type;
    routing_token = text_or e.routing_token [];
    timestamp = e.timestamp;
    payload = record { ephemeral_public_key = []; nonce = []; ciphertext = text_or e.payload [] };
    padding = e.rest;
  };
  mail = entry_list;
  users = entry_list;
  recover = λ message signature. some signature;
  get_bytes = λ signature. some signature;
  domain = codes "dmail.network";
}

abbrev stranger : Option Text
stranger = some (codes "Bearer x")

abbrev fresh : State services
fresh = new_server services []

unknown : IsInvalid (bearer_token stranger) 5 fresh.auth
unfolding validate_session bearer_token starts_with get
unknown x e = ground arith

serve-refused_example :
    let (t, reply) = serve services (codes "ip") stranger 5 Call.node_stop fresh in
    (t ≡ record fresh { auth = t.auth }) × ((r : Auth.Reply) × (reply ≡ Reply.refused r))
serve-refused_example = serve-refused services (codes "ip") stranger 5 Call.node_stop fresh unknown

abbrev session : Session
session = record {
  wallet_address = codes "0xa";
  dmail_address = codes "dm1a";
  expires = 900;
  created_at = 0;
}

-- Two sessions, of which one has a node.
abbrev busy : State services
busy = record fresh {
  auth = record {
    sessions = (codes "a", session) ∷ (codes "b", session) ∷ [];
    nonces = [];
    rate_limits = [];
  };
  sessions =
      (
        codes "b",
        record {
          identity = some (from_signature toy plain signing (1 ∷ []) (codes "0xB"));
          node =
              running (from_signature toy plain signing (1 ∷ []) (codes "0xB"))
                (record { messages = []; handled = [] });
        },
      )
      ∷ [];
  clients = (codes "b", record { is_open = true; received = [] }) ∷ [];
}

other_token : codes "b" ≢ text_or (bearer_token (some (codes "Bearer a"))) []
unfolding bearer_token starts_with
other_token e = ground arith

serve-Within_example :
    let t = (serve services (codes "ip") (some (codes "Bearer a")) 5 Call.node_stop busy).0 in
    (get (codes "b") t.sessions ≡ get (codes "b") busy.sessions)
    × (get (codes "b") t.clients ≡ get (codes "b") busy.clients)
    × (identity_at services (codes "b") t ≡ identity_at services (codes "b") busy)
    × ((x : Session)
        → get (codes "b") t.auth.sessions ≡ some x
        → get (codes "b") busy.auth.sessions ≡ some x)
serve-Within_example =
    serve-Within services (codes "ip") (some (codes "Bearer a")) 5 Call.node_stop busy (codes "b")
      other_token

abbrev acts : List (Act services.mail.Store)
acts =
    challenges (codes "n") 0
    ∷ logs_in (codes "t") 1 (some (codes "0xA")) (some (codes "0xa")) (some (codes "n"))
    ∷ []

run-IsSignedIn_example : IsSignedIn services (run services fresh acts)
run-IsSignedIn_example = run-IsSignedIn services [] acts

abbrev signed : Session
signed = record {
  wallet_address = codes "0xa";
  dmail_address =
      address signing (from_signature toy plain signing (codes "0xA") (codes "0xa")).identity;
  expires = 86400001;
  created_at = 1;
}

signed_in : (validate_session (some (codes "t")) 2 (run services fresh acts).auth).1 ≡ ok signed
unfolding run validate_session get set generate_nonce delete_where login authenticate_wallet
    verify_nonce check_signer consume_nonce create_session text_discrete to_lower_case
signed_in = refl

let_through : (check_rate_limit (codes "ip") 2 (run services fresh acts).auth).1 ≡ remaining 59
unfolding run get set generate_nonce delete_where login authenticate_wallet verify_nonce
    check_signer consume_nonce create_session text_discrete to_lower_case check_rate_limit
    recent_requests dec_lt
let_through = refl

bears : bearer_token (some (codes "Bearer t")) ≡ some (codes "t")
unfolding bearer_token starts_with
bears = refl

abbrev starts : Call (List (Text × Entry))
starts = Call.node_start (some [])

serve-own_example :
    (let s = run services fresh acts in
      let (t, reply) = serve services (codes "ip") (some (codes "Bearer t")) 2 starts s in
      let (u, answer) = handle services (codes "t") 2 starts (own services (codes "t") s) in
      (reply ≡ answer)
      × IsOwn services signed (get_session_data (codes "t") (own services (codes "t") s)).identity
      × (get_session_data (codes "t") t ≡ get_session_data (codes "t") u)
      × (get (codes "t") t.clients ≡ get (codes "t") u.clients)
      × (t.users ≡ u.users)
      × (t.published ≡ s.published ++ u.published))
serve-own_example =
    serve-own services [] acts (codes "ip") (some (codes "Bearer t")) (codes "t") 2 59 starts signed
      bears signed_in let_through

abbrev challenged : State services
challenged = record fresh {
  auth = record {
    sessions = [];
    nonces = (codes "n", record { expires = 300000; used = false }) ∷ [];
    rate_limits = [];
  };
}

abbrev shown : Public
shown = public_of services (from_signature toy plain signing (codes "0xA") (codes "0xa"))

logs_in_once :
    (login services
      (codes "t")
      1
      (some (codes "0xA"))
      (some (codes "0xa"))
      (some (codes "n"))
      challenged).1
    ≡ Reply.logged_in (codes "t") 86400001 shown
unfolding login authenticate_wallet verify_nonce check_signer consume_nonce create_session get set
    text_discrete to_lower_case
logs_in_once = refl

connect-login_example :
    (connect services
      (some (codes "t"))
      900
      (login services
        (codes "t")
        1
        (some (codes "0xA"))
        (some (codes "0xa"))
        (some (codes "n"))
        challenged).0).1
    ≡ crashed
unfolding get
connect-login_example =
    connect-login services b't' [] 1 900 (some (codes "0xA")) (some (codes "0xa"))
      (some (codes "n")) challenged 86400001 shown refl logs_in_once (omega arith)
