-- ===== src/Tests/Work.antt =====
-- src/crypto/pow.js and the proof of work of src/network/rate-limiter.js at concrete inputs. The hash
-- is 31 zeros and the length of what is hashed.
use chainmail_protocol.Base.{
  ℕ, zero, suc, ◌%◌, ◌≤◌, ◌<◌, ◌≡◌, refl, ◌⊎◌, true, false, [], ◌∷◌, ◌++◌, if◌then◌else◌, none,
  some, Bytes, codes, length, arith, All, ltb,
}
use chainmail_protocol.Crypto.{Encodings, EncodingLaws}
use chainmail_protocol.Crypto.ProofOfWork.{
  value, target, max_rounds, proof_at, compute_proof_of_work, verify_proof_of_work, search, meets,
  hash_with,
}
use chainmail_protocol.Crypto.ProofOfWork.Search.{compute_proof_of_work-cases}
use chainmail_protocol.Network.WorkLimiter.{
  WorkLimiter, Challenge, valid, challenge_expired, insufficient_work, get_difficulty, verify_proof,
}
use chainmail_protocol.Network.WorkLimiter.Zeros.{verify_proof-verify_proof_of_work}
use chainmail_protocol.Tests.Toy.{plain}

abbrev zeros_then : ℕ → ℕ → Bytes
zeros_then zero n = n ∷ []
zeros_then (suc k) n = 0 ∷ zeros_then k n

abbrev pub short : Encodings
short = record plain { sha256 = λ b. zeros_then 31 (length b % 256); digits = λ n. n ∷ [] }

abbrev pub short_laws : EncodingLaws short
short_laws = record {
  from_hex-hex = λ b. refl;
  from_base64-to_base64 = λ b. refl;
  from_utf8-utf8 = λ t. refl;
}

pub short_hashes :
    (b : Bytes) → (length (short.sha256 b) ≡ 32) × All (λ x. x < 256) (short.sha256 b)
short_hashes b = (refl, omega arith)

finds_first : compute_proof_of_work short (codes "m") 250 ≡ some (proof_at short (codes "m") 250 0)
unfolding compute_proof_of_work search meets hash_with value target
finds_first = refl

compute_proof_of_work-cases_example :
    ((i : ℕ) × (compute_proof_of_work short (codes "m") 250
        ≡ some (proof_at short (codes "m") 250 i))
      × (i < max_rounds)
      × (verify_proof_of_work short (codes "m") (proof_at short (codes "m") 250 i) ≡ true)
      × ((i ≤ 7)
          ⊎ (verify_proof_of_work short (codes "m") (proof_at short (codes "m") 250 7) ≡ false)))
    ⊎ ((compute_proof_of_work short (codes "m") 250 ≡ none)
        × (verify_proof_of_work short (codes "m") (proof_at short (codes "m") 250 7) ≡ false))
compute_proof_of_work-cases_example =
    compute_proof_of_work-cases short (codes "m") 250 7 (omega arith)

abbrev limiter : WorkLimiter
limiter = record { base_difficulty = 16; max_difficulty = 24 }

abbrev asked : Challenge
asked = record { challenge = codes "ab"; timestamp = 5; sender_id = codes "me"; expires_at = 60005 }

verify_proof-verify_proof_of_work_example : verify_proof true short limiter 9 asked (codes "17") ≡ (
    if true
    then some (
        if ltb 60005 9
        then challenge_expired
        else if verify_proof_of_work short
            (codes "ab" ++ codes ":" ++ codes "me")
            (record { nonce = codes "17"; hash = []; difficulty = get_difficulty limiter 0 })
        then valid
        else insufficient_work)
    else none)
verify_proof-verify_proof_of_work_example =
    verify_proof-verify_proof_of_work true short limiter 9 asked (codes "17") [] short_hashes
      (omega arith)
