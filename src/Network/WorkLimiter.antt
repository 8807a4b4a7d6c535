-- ===== src/Network/WorkLimiter.antt =====
-- src/network/rate-limiter.js, the class `ProofOfWorkLimiter`. A reputation is a whole number, and
-- the product of the base difficulty with half of its hundredth part is taken to be exact. Two methods
-- call `require`, a name that Node.js defines in a CommonJS module and not in an ES module, which
-- this file is by package.json: whether it is defined is the argument `has_require`.
use Prim.Native.Nat.{bit_and}
use chainmail_protocol.Base.{
  ℕ, zero, suc, ◌+◌, ◌-◌, ◌*◌, ◌/◌, ◌%◌, ◌^◌, max, Bool, true, false, ◌&&◌, List, [], ◌∷◌, ◌++◌,
  Option, none, some, if◌then◌else◌, leb, ltb, ◌==◌, Text, Bytes, codes, or_else, get_elem?,
}
use chainmail_protocol.Crypto.{Encodings}
pub mod Zeros

pub record WorkLimiter : Type 0 where
  pub base_difficulty : ℕ
  pub max_difficulty : ℕ

pub record Challenge : Type 0 where
  pub challenge : Text
  pub timestamp : ℕ
  pub sender_id : Text
  pub expires_at : ℕ

pub data Verdict : Type 0 where
  valid challenge_expired insufficient_work : Verdict

unfoldable pub init : Option ℕ → Option ℕ → WorkLimiter
init base top = record { base_difficulty = or_else base 16; max_difficulty = or_else top 24 }

unfoldable pub get_difficulty : WorkLimiter → ℕ → ℕ
get_difficulty l reputation = max 8 (l.base_difficulty - (l.base_difficulty * reputation) / 200)

-- `random` is the hexadecimal text of 32 random bytes; `none` is the ReferenceError of `require`.
unfoldable pub generate_challenge : Bool → Text → ℕ → Text → Option Challenge
generate_challenge has_require random now sender =
    if has_require
    then some (record {
      challenge = random;
      timestamp = now;
      sender_id = sender;
      expires_at = now + 60000;
    })
    else none

-- The first `n` bytes are 0; a byte that is missing is not.
abbrev pub zero_bytes : ℕ → Bytes → Bool
zero_bytes zero bs = true
zero_bytes (suc n) [] = false
zero_bytes (suc n) (b ∷ bs) = (b == 0) && zero_bytes n bs

-- The highest `bits` bits of a byte are 0; those of a missing one count as 0.
abbrev pub zero_bits : ℕ → Option ℕ → Bool
zero_bits bits none = true
zero_bits bits (some b) = bit_and b (255 * 2 ^ (8 - bits)) == 0

unfoldable pub has_zeros : ℕ → Bytes → Bool
has_zeros difficulty hash =
    zero_bytes (difficulty / 8) hash
    && (if ltb 0 (difficulty % 8)
        then zero_bits (difficulty % 8) (get_elem? hash (difficulty / 8))
        else true)

-- What follows `require`.
unfoldable pub judge : Encodings → WorkLimiter → ℕ → Challenge → Text → Verdict
unfolding get_difficulty has_zeros
judge c l now challenge nonce =
    if ltb challenge.expires_at now
    then challenge_expired
    else (if has_zeros (get_difficulty l 0) (
          c.sha256 (
            c.utf8 (challenge.challenge ++ codes ":" ++ challenge.sender_id ++ codes ":" ++ nonce)))
        then valid
        else insufficient_work)

-- `none` is the ReferenceError of `require`.
unfoldable pub verify_proof : Bool → Encodings → WorkLimiter → ℕ → Challenge → Text → Option Verdict
unfolding judge
verify_proof has_require c l now challenge nonce =
    if has_require then some (judge c l now challenge nonce) else none
