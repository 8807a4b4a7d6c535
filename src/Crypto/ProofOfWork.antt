-- ===== src/Crypto/ProofOfWork.antt =====
-- src/crypto/pow.js. A proof keeps its nonce as a string of digits; a failed search is `none`.
use chainmail_protocol.Base.{
  ℕ, zero, suc, ◌+◌, ◌-◌, ◌*◌, ◌^◌, Bool, true, false, List, [], ◌∷◌, ◌++◌, Option, none, some,
  if◌then◌else◌, leb, ltb, Text, Bytes, codes,
}
use chainmail_protocol.Crypto.{Encodings}
pub mod Search

abbrev pub default_difficulty : ℕ
default_difficulty = 18

pub record Proof : Type 0 where
  pub nonce : Text
  pub hash : Text
  pub difficulty : ℕ

-- The number that bytes spell, the first one the highest: `BigInt('0x' + hex)`.
abbrev pub value_from : ℕ → Bytes → ℕ
value_from acc [] = acc
value_from acc (b ∷ bs) = value_from (acc * 256 + b) bs

unfoldable pub value : Bytes → ℕ
value bs = value_from 0 bs

-- `1n << (256 - difficulty)`; a shift by a negative number goes to the right.
unfoldable pub target : ℕ → ℕ
target difficulty = if leb difficulty 256 then 2 ^ (256 - difficulty) else 0

-- The numbers from 0 to 2^40 are tried.
abbrev pub max_rounds : ℕ
max_rounds = 2 ^ 40 + 1

module _ (c : Encodings) where
  unfoldable pub hash_with : Text → Text → Bytes
  hash_with message_hash nonce = c.sha256 (c.utf8 (message_hash ++ codes ":" ++ nonce))

  -- The hash with that nonce is below the target.
  unfoldable pub meets : Text → ℕ → Text → Bool
  unfolding hash_with value target
  meets message_hash difficulty nonce =
      ltb (value (hash_with message_hash nonce)) (target difficulty)

  abbrev pub proof_at : Text → ℕ → ℕ → Proof
  proof_at message_hash difficulty nonce = record {
    nonce = c.digits nonce;
    hash = c.hex (hash_with message_hash (c.digits nonce));
    difficulty = difficulty;
  }

  -- The loop, over the rounds that are left.
  unfoldable pub search : ℕ → Text → ℕ → ℕ → Option Proof
  unfolding meets
  search zero message_hash difficulty nonce = none
  search (suc rounds) message_hash difficulty nonce =
      let rest = search rounds message_hash difficulty (nonce + 1) in
      if meets message_hash difficulty (c.digits nonce)
      then some (proof_at message_hash difficulty nonce)
      else rest

  unfoldable pub compute_proof_of_work : Text → ℕ → Option Proof
  unfolding search
  compute_proof_of_work message_hash difficulty = search max_rounds message_hash difficulty 0

  unfoldable pub verify_proof_of_work : Text → Proof → Bool
  unfolding meets
  verify_proof_of_work message_hash proof = meets message_hash proof.difficulty proof.nonce
