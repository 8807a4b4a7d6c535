-- ===== src/Tests/Crypto.antt =====
-- src/crypto/double-ratchet.js at concrete inputs.
use chainmail_protocol.Base.{ℕ, ◌≡◌, refl, true, false, [], ◌∷◌, none, some, arith}
use chainmail_protocol.Base.Dict.{get}
use chainmail_protocol.Crypto.DoubleRatchet.{
  State, ok, key_pair, new_state, init_as_initiator, init_as_responder, open_with, decrypt,
}
use chainmail_protocol.Crypto.DoubleRatchet.Chain.{Follows, chain_at, key_at, message}
use chainmail_protocol.Crypto.DoubleRatchet.Conversation.{Letter, converse, converse-plaintexts}
use chainmail_protocol.Crypto.DoubleRatchet.Delivery.{
  Parcel, deliver, deliver-plaintexts, decrypt-forged,
}
use chainmail_protocol.Tests.Toy.{toy, toy_laws}

abbrev letter : ℕ → ℕ → Letter
letter text secret = record { plaintext = text ∷ []; ad = []; nonce = 9 ∷ []; secret = secret ∷ [] }

converse-plaintexts_example :
    converse toy
      (init_as_responder toy (5 ∷ []) (key_pair toy (2 ∷ [])) new_state)
      (init_as_initiator toy (1 ∷ []) (5 ∷ []) (2 ∷ []) new_state)
      ((false, letter 70 3) ∷ (true, letter 71 0) ∷ (false, letter 72 4) ∷ [])
    ≡ ok (70 ∷ []) ∷ ok (71 ∷ []) ∷ ok (72 ∷ []) ∷ []
converse-plaintexts_example =
    converse-plaintexts toy toy_laws (1 ∷ []) (2 ∷ []) (5 ∷ []) (letter 70 3)
      ((true, letter 71 0) ∷ (false, letter 72 4) ∷ [])
      ((λ e. ground arith), ((λ e. ground arith), tt))

-- A receiver at the start of the chain 6 under the remote key 7.
abbrev receiver : State
receiver = record {
  dhs = none;
  dhr = some (7 ∷ []);
  rk = none;
  cks = none;
  ckr = some (6 ∷ []);
  ns = 0;
  nr = 0;
  pn = 0;
  skipped = [];
}

receiver-Follows : Follows toy (7 ∷ []) (6 ∷ []) [] receiver
unfolding chain_at get
receiver-Follows = record {
  remote = refl;
  here = refl;
  behind = λ j i. absurd i;
  kept = λ j h i. absurd (omega arith);
  gone = λ j i. absurd i;
  ahead = λ j h. refl;
}

abbrev parcel : ℕ → ℕ → Parcel
parcel n text = record {
  n = n;
  pn = 0;
  secret = [];
  nonce = 9 ∷ [];
  ad = [];
  plaintext = text ∷ [];
}

deliver-plaintexts_example :
    deliver toy (7 ∷ []) (6 ∷ []) receiver (parcel 2 72 ∷ parcel 0 70 ∷ parcel 1 71 ∷ [])
    ≡ ok (72 ∷ []) ∷ ok (70 ∷ []) ∷ ok (71 ∷ []) ∷ []
deliver-plaintexts_example =
    deliver-plaintexts toy toy_laws (7 ∷ []) (6 ∷ []) receiver
      (parcel 2 72 ∷ parcel 0 70 ∷ parcel 1 71 ∷ []) receiver-Follows
      ((λ i. i), ((λ i. ground arith), ((λ i. ground arith), tt))) (omega arith)

decrypt-forged_example :
    (decrypt toy []
      (message toy (7 ∷ []) (6 ∷ []) 0 0 (9 ∷ []) [] (70 ∷ []))
      []
      (decrypt toy []
        (record { header = record { dh = 7 ∷ []; pn = 0; n = 0 }; nonce = 9 ∷ []; ciphertext = [] })
        []
        receiver).0).1
    ≡ open_with toy
        (key_at toy (6 ∷ []) 1)
        (9 ∷ [])
        []
        (toy.encrypt (key_at toy (6 ∷ []) 0) (9 ∷ []) [] (70 ∷ []))
decrypt-forged_example =
    decrypt-forged toy toy_laws (7 ∷ []) (6 ∷ []) [] (9 ∷ []) [] [] [] (9 ∷ []) [] (70 ∷ []) 0 0 []
      receiver receiver-Follows
