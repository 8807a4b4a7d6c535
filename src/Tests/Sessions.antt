-- ===== src/Tests/Sessions.antt =====
-- The sessions of src/crypto/double-ratchet.js at concrete inputs.
use chainmail_protocol.Base.{
  ℕ, Bytes, text_discrete, ◌≡◌, ◌≢◌, refl, ap, length, arith, [], ◌∷◌, none, some, codes,
}
use chainmail_protocol.Base.Dict.{get, text_key}
use chainmail_protocol.Crypto.DoubleRatchet.{State, new_state}
use chainmail_protocol.Crypto.DoubleRatchet.Sessions.{session_key, get_session}
use chainmail_protocol.Crypto.DoubleRatchet.Sessions.Saved.{
  gets, uses, creates, saves, restarts, step, run, get_session-run,
}
use chainmail_protocol.Tests.Entries.{entry_list, entry_list_laws}
use chainmail_protocol.Tests.Toy.{plain, plain_laws}

abbrev session : State
session = record {
  dhs = some (record { private_key = 3 ∷ []; public_key = 3 ∷ [] });
  dhr = some (7 ∷ []);
  rk = some (8 ∷ []);
  cks = none;
  ckr = some (6 ∷ []);
  ns = 2;
  nr = 4;
  pn = 1;
  skipped = ((7 ∷ [], 3), 9 ∷ []) ∷ [];
}

abbrev one : ℕ → Bytes
one key = key ∷ []

filled : (key : ℕ) → one key ≢ []
filled key h = omega (arith, ap length h)

other_address : session_key (codes "a") ≢ session_key (codes "bc")
other_address h = omega (arith, ap length h)

get_session-run_example :
    (get_session plain entry_list (codes "a") (
      step plain entry_list
        (run plain entry_list
          (step plain entry_list ((codes "a", session) ∷ [], some []) (saves (codes "a")))
          (uses (codes "a") (λ s. record s { ns = 9 })
            ∷ creates (codes "bc") new_state
            ∷ restarts
            ∷ gets (codes "a")
            ∷ []))
        restarts)).1
    ≡ some session
unfolding get text_discrete
get_session-run_example =
    get_session-run plain entry_list entry_list_laws plain_laws (codes "a") session
      ((codes "a", session) ∷ []) []
      (uses (codes "a") (λ s. record s { ns = 9 })
        ∷ creates (codes "bc") new_state
        ∷ restarts
        ∷ gets (codes "a")
        ∷ [])
      (filled 7, filled 8, tt, filled 6, (tt, tt)) refl (tt, (other_address, (tt, (tt, tt))))
