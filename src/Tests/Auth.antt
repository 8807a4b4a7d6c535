-- ===== src/Tests/Auth.antt =====
-- src/server/auth.js at concrete inputs. A signature is the address that it recovers to.
use chainmail_protocol.Base.{
  ◌≡◌, ◌≢◌, refl, [], ◌∷◌, Option, some, arith, Text, text_discrete, to_lower_case, codes,
}
use chainmail_protocol.Base.Dict.{get, text_key}
use chainmail_protocol.Server.Auth.{
  Store, ok, verify_nonce, create_session, validate_session, destroy_session, authenticate_wallet,
  check_signer,
}
use chainmail_protocol.Server.Auth.Calls.{generates, sweeps, run}
use chainmail_protocol.Server.Auth.Nonces.{authenticate_wallet-once}
use chainmail_protocol.Server.Auth.Sessions.{
  validate_session-create_session, validate_session-ends, session_at,
}
use mathlib.Core.Bool.{false}

abbrev recover : Text → Text → Option Text
recover message signature = some signature

abbrev wallet : Text
wallet = codes "0xAb"

abbrev store : Store
store = record {
  sessions = [];
  nonces = (codes "n1", record { expires = 500; used = false }) ∷ [];
  rate_limits = [];
}

signs_in : (authenticate_wallet Text recover wallet wallet (codes "n1") 400 store).1 ≡ ok wallet
unfolding authenticate_wallet verify_nonce check_signer get text_discrete to_lower_case
signs_in = refl

authenticate_wallet-once_example :
    (authenticate_wallet Text recover wallet wallet (codes "n1") 410 (
      run Text recover
        (authenticate_wallet Text recover wallet wallet (codes "n1") 400 store).0
        (generates (codes "n2") 405 ∷ []))).1
    ≢ ok wallet
authenticate_wallet-once_example =
    authenticate_wallet-once Text recover wallet wallet wallet wallet (codes "n1") 400 410 store
      wallet (generates (codes "n2") 405 ∷ []) signs_in ((λ r. ground (arith, r.1)), tt) wallet

validate_session-create_session_example :
    (validate_session (some (codes "t")) 5000 (
      run Text recover (create_session (codes "t") 400 wallet wallet store).0 (sweeps 4000 ∷ []))).1
    ≡ ok (session_at 400 wallet wallet)
validate_session-create_session_example =
    validate_session-create_session Text recover b't' [] 400 5000 wallet wallet store
      (sweeps 4000 ∷ []) (omega arith) (((λ r. ground (arith, r.3)), (λ e. cc), omega arith), tt)

validate_session-ends_example :
    ((validate_session (some (codes "t")) 86400401 (
        run Text recover
          (create_session (codes "t") 400 wallet wallet store).0
          (generates (codes "n2") 405 ∷ []))).1
      ≢ ok (session_at 400 wallet wallet))
    × ((validate_session (some (codes "t")) 86400401 (
          run Text recover (destroy_session (codes "t") store) (generates (codes "n2") 405 ∷ []))).1
        ≢ ok (session_at 400 wallet wallet))
validate_session-ends_example =
    validate_session-ends Text recover (codes "t") 400 86400401 wallet wallet store
      (generates (codes "n2") 405 ∷ []) (session_at 400 wallet wallet)
      ((λ r. ground (arith, r.3)), tt) (omega arith)
