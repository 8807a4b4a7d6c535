-- ===== src/Server/Api/Runs.antt =====
-- src/server/secure-server.js: the server over a list of what happens to it.
use chainmail_protocol.Base.{ℕ, List, [], ◌∷◌, Option, Text, Bytes}
use chainmail_protocol.Base.Dict.{text_key}
use chainmail_protocol.Server.Auth.{generate_nonce, forget_nonce, sweep}
use chainmail_protocol.Server.Api.{Services, Call}
use chainmail_protocol.Server.Api.Handlers.{State}
use chainmail_protocol.Server.Api.Routes.{serve, login, logout, connect, disconnect, arrive}

-- What happens to the server: challenges, logins and logouts, requests, WebSockets, messages of the
-- topic, and the timers of its authentication.
pub data Act (Store : Type 0) : Type 0 where
  challenges : Text → ℕ → Act Store
  logs_in : Text → ℕ → Option Text → Option Text → Option Text → Act Store
  logs_out : Option Text → Act Store
  serves : Text → Option Text → ℕ → Call Store → Act Store
  connects : Option Text → ℕ → Act Store
  disconnects forgets : Text → Act Store
  arrives : Text → Bytes → ℕ → Act Store
  sweeps : ℕ → Act Store

module _ (v : Services) where
  abbrev pub new_server : v.users.Store → State v
  new_server users = record {
    auth = record { sessions = []; nonces = []; rate_limits = [] };
    sessions = [];
    clients = [];
    users = users;
    published = [];
  }

  unfoldable pub step : State v → Act v.mail.Store → State v
  unfolding generate_nonce login logout serve connect disconnect forget_nonce arrive sweep
  step s (challenges nonce now) = record s { auth = (generate_nonce nonce now s.auth).0 }
  step s (logs_in token now signature wallet nonce) = (login v token now signature wallet nonce s).0
  step s (logs_out authorization) = (logout v authorization s).0
  step s (serves ip authorization now call) = (serve v ip authorization now call s).0
  step s (connects token now) = (connect v token now s).0
  step s (disconnects token) = disconnect v token s
  step s (forgets nonce) = record s { auth = forget_nonce nonce s.auth }
  step s (arrives token bytes now) = arrive v token bytes now s
  step s (sweeps now) = record s { auth = sweep now s.auth }

  unfoldable pub run : State v → List (Act v.mail.Store) → State v
  unfolding step
  run s [] = s
  run s (a ∷ acts) = run (step s a) acts
