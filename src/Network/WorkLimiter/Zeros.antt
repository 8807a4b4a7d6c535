-- ===== src/Network/WorkLimiter/Zeros.antt =====
-- src/network/rate-limiter.js, ProofOfWorkLimiter: leading zero bits as a bound on the number that
-- the bytes spell.
use native.Mathlib.Nat.{
  mul-le-mul_right, mul_assoc, pow-succ', add-mul, suc-mul, zero-add, one-mul, pow-le-pow_right,
}
use mathlib.Core.Path.{◌≡⟨◌⟩◌, ◌∎}
use chainmail_protocol.Base.{
  ℕ, zero, suc, ◌+◌, ◌-◌, ◌*◌, ◌/◌, ◌%◌, ◌^◌, ◌≤◌, ◌<◌, ◌≡◌, refl, ◌∙◌, ap, sym, subst, Bool, true,
  false, ◌&&◌, [], ◌∷◌, ◌++◌, none, some, Text, codes, if◌then◌else◌, ltb, ◌==◌, Bytes, arith,
  Bool-cases, ℕ_discrete, length, All, get_elem?, ltb_false→le, inl, inr, lt→ltb, le→ltb_false,
  ltb→lt, le→leb,
}
use chainmail_protocol.Crypto.{Encodings}
use chainmail_protocol.Crypto.ProofOfWork.{
  value, value_from, target, verify_proof_of_work, meets, hash_with,
}
use chainmail_protocol.Crypto.ProofOfWork.Search.{value_from-lt}
use chainmail_protocol.Network.WorkLimiter.{
  WorkLimiter, Challenge, valid, challenge_expired, insufficient_work, get_difficulty, zero_bytes,
  zero_bits, has_zeros, judge, verify_proof,
}

-- A test passes at every number under a bound.
every_under : (ℕ → Bool) → ℕ → Bool
every_under test zero = true
every_under test (suc bound) = if test bound then every_under test bound else false

every_under-apply :
    (test : ℕ → Bool) (bound i : ℕ) → i < bound → every_under test bound ≡ true → test i ≡ true
unfolding every_under
every_under-apply test zero i lt all = absurd (omega (arith, lt))
every_under-apply test (suc bound) i lt all = elim (ℕ_discrete i bound) [
  | yes e ↦ subst (λ n. test n ≡ true) (sym e) (ground arith)
  | no d ↦ every_under-apply test bound i (omega (arith, lt, d)) (ground arith)
]

abbrev same : Bool → Bool → Bool
same true b = b
same false true = false
same false false = true

same-eq : (a b : Bool) → same a b ≡ true → a ≡ b
same-eq true true h = refl
same-eq true false h = cc
same-eq false true h = cc
same-eq false false h = refl

abbrev agrees : ℕ → ℕ → Bool
agrees bits b = same (zero_bits bits (some b)) (ltb b (2 ^ (8 - bits)))

-- Every byte against every number of bits.
agrees_everywhere : every_under (λ bits. every_under (agrees bits) 256) 8 ≡ true
unfolding every_under
agrees_everywhere = refl

zero_bits-byte :
    (bits b : ℕ) → bits < 8 → b < 256 → zero_bits bits (some b) ≡ ltb b (2 ^ (8 - bits))
zero_bits-byte bits b h k = same-eq (zero_bits bits (some b)) (ltb b (2 ^ (8 - bits))) (
    every_under-apply (agrees bits) 256 b k
      (every_under-apply (λ i. every_under (agrees i) 256) 8 bits h agrees_everywhere))

value_from_lem :
    (acc : ℕ) (bs : Bytes) → value_from acc bs ≡ acc * 256 ^ length bs + value_from 0 bs
value_from_lem acc [] = omega arith
value_from_lem acc (b ∷ bs) = omega (
  arith,
  value_from_lem (acc * 256 + b) bs,
  value_from_lem (0 * 256 + b) bs,
  ap (◌* 256 ^ length bs) (zero-add b),
  add-mul (acc * 256) b (256 ^ length bs),
  mul_assoc acc 256 (256 ^ length bs),
  ap (acc *◌) (pow-succ' 256 (length bs)),
  ap (λ n. value_from n bs) (zero-add b),
)

two_pow-add : (n k : ℕ) → 2 ^ (n + k) ≡ 2 ^ n * 2 ^ k
two_pow-add zero k = ap (λ n. 2 ^ n) (zero-add k) ∙ sym (one-mul (2 ^ k))
two_pow-add (suc n) k =
    2 ^ (suc n + k)
    ≡⟨ ap (2 ^◌) (omega arith) ∙ pow-succ' 2 (n + k) ⟩ 2 * 2 ^ (n + k)
    ≡⟨ ap (2 *◌) (two_pow-add n k) ⟩ 2 * (2 ^ n * 2 ^ k)
    ≡⟨ sym (mul_assoc 2 (2 ^ n) (2 ^ k)) ⟩ 2 * 2 ^ n * 2 ^ k
    ≡⟨ ap (◌* 2 ^ k) (sym (pow-succ' 2 n)) ⟩ 2 ^ suc n * 2 ^ k ∎

two_pow-eight : (n : ℕ) → 2 ^ (8 * n) ≡ 256 ^ n
two_pow-eight zero = refl
two_pow-eight (suc n) =
    ap (2 ^◌) (omega arith)
    ∙ two_pow-add 8 (8 * n)
    ∙ ap (256 *◌) (two_pow-eight n)
    ∙ sym (pow-succ' 256 n)

-- Below a multiple of a power: the digit decides.
mul-lt_iff : (b k v p : ℕ) → v < p → ltb (b * p + v) (k * p) ≡ ltb b k
mul-lt_iff b k v p h = elim (Bool-cases (ltb b k)) [
  | inl e ↦
      lt→ltb (b * p + v) (k * p) (omega (arith, h, mul-le-mul_right p (ltb→lt b k e), suc-mul b p))
      ∙ sym e
  | inr e ↦
      le→ltb_false (b * p + v) (k * p) (omega (arith, mul-le-mul_right p (ltb_false→le b k e)))
      ∙ sym e
]

value-lt : (bs : Bytes) → All (λ b. b < 256) bs → value_from 0 bs < 256 ^ length bs
value-lt bs a =
    subst (λ n. value_from 0 bs < n) (omega arith) (value_from-lt 0 1 bs (omega arith) a)

suc-ne-zero : (b : ℕ) → (suc b == 0) ≡ false
suc-ne-zero b = ground arith

-- The bound for `q` bytes and then `r` bits.
abbrev zeros : ℕ → ℕ → Bytes → Bool
zeros q r bs = zero_bytes q bs && (if ltb 0 r then zero_bits r (get_elem? bs q) else true)

zeros-value :
    (q r : ℕ) (bs : Bytes)
    → r < 8
    → q * 8 + r ≤ 8 * length bs
    → All (λ b. b < 256) bs
    → zeros q r bs ≡ ltb (value_from 0 bs) (2 ^ (8 * length bs - (q * 8 + r)))
zeros-value zero zero bs h k a =
    sym (
      lt→ltb (value_from 0 bs) (2 ^ (8 * length bs))
        (subst (λ n. value_from 0 bs < n) (sym (two_pow-eight (length bs))) (value-lt bs a)))
    ∙ ap (λ n. ltb (value_from 0 bs) (2 ^ n)) (omega arith)
zeros-value zero (suc r) [] h k a = absurd (omega (arith, k))
zeros-value zero (suc r) (b ∷ bs) h k a =
    ap (λ t. if t then zero_bits (suc r) (some b) else true) (lt→ltb 0 (suc r) (omega arith))
    ∙ zero_bits-byte (suc r) b h a.0
    ∙ sym (mul-lt_iff b (2 ^ (8 - suc r)) (value_from 0 bs) (256 ^ length bs) (value-lt bs a.1))
    ∙ cong
  where
    bound : 2 ^ (8 - suc r) * 256 ^ length bs ≡ 2 ^ (8 * length (b ∷ bs) - (0 * 8 + suc r))
    bound =
        ap (2 ^ (8 - suc r) *◌) (sym (two_pow-eight (length bs)))
        ∙ sym (two_pow-add (8 - suc r) (8 * length bs))
        ∙ ap (2 ^◌) (omega (arith, h))

    cong :
        ltb (b * 256 ^ length bs + value_from 0 bs) (2 ^ (8 - suc r) * 256 ^ length bs)
        ≡ ltb (value_from 0 (b ∷ bs)) (2 ^ (8 * length (b ∷ bs) - (0 * 8 + suc r)))
    cong =
        ap (λ n. ltb n (2 ^ (8 - suc r) * 256 ^ length bs))
          (sym (ap (λ n. value_from n bs) (zero-add b) ∙ value_from_lem b bs))
        ∙ ap (ltb (value_from 0 (b ∷ bs))) bound
zeros-value (suc q) r [] h k a = absurd (omega (arith, k))
zeros-value (suc q) r (zero ∷ bs) h k a =
    zeros-value q r bs h (omega (arith, k)) a.1
    ∙ ap (λ n. ltb (value_from 0 bs) (2 ^ n)) (omega arith)
zeros-value (suc q) r (suc b ∷ bs) h k a =
    ap (λ t. (t && zero_bytes q bs) && (if ltb 0 r then zero_bits r (get_elem? bs q) else true))
      (suc-ne-zero b)
    ∙ sym (
        le→ltb_false (value_from 0 (suc b ∷ bs)) (2 ^ (8 * suc (length bs) - (suc q * 8 + r))) (
          omega (
            arith,
            ap (λ n. value_from n bs) (zero-add (suc b)),
            value_from_lem (suc b) bs,
            suc-mul b (256 ^ length bs),
            two_pow-eight (length bs),
            pow-le-pow_right {n = 2} (omega arith) {i = 8 * suc (length bs) - (suc q * 8 + r)}
                {j = 8 * length bs} (omega arith),
          )))

-- Looking at the leading bytes and then at the bits of the next one accepts a hash of 32 bytes
-- exactly if the number that it spells is below the target of the same difficulty in src/crypto/pow.js.
has_zeros-value :
    (d : ℕ) (bs : Bytes)
    → d ≤ 256
    → length bs ≡ 32
    → All (λ b. b < 256) bs
    → has_zeros d bs ≡ ltb (value bs) (target d)
unfolding has_zeros value target
has_zeros-value d bs h k a =
    zeros-value (d / 8) (d % 8) bs (omega arith) (omega (arith, h, k)) a
    ∙ ap (ltb (value_from 0 bs)) (
        ap (λ n. 2 ^ n) (omega (arith, h, k))
        ∙ sym (ap (λ b. if b then 2 ^ (256 - d) else 0) (le→leb d 256 h)))

get_difficulty-le : (l : WorkLimiter) → l.base_difficulty ≤ 256 → get_difficulty l 0 ≤ 256
unfolding get_difficulty
get_difficulty-le l h = ground arith

-- If hashes are 32 bytes and the base difficulty is at most 256: where `require` is defined, a
-- challenge that has expired is refused as such, and any other is answered as src/crypto/pow.js answers
-- for a proof of the limiter's difficulty, taking the challenge and the sender for the message hash.
-- Where it is not defined, as in an ES module, verifyProof raises an exception, whatever the challenge
-- and the nonce are.
pub verify_proof-verify_proof_of_work :
    (has_require : Bool) (c : Encodings) (l : WorkLimiter) (now : ℕ) (ch : Challenge)
    (nonce hash : Text)
    → ((b : Bytes) → (length (c.sha256 b) ≡ 32) × All (λ x. x < 256) (c.sha256 b))
    → l.base_difficulty ≤ 256
    → verify_proof has_require c l now ch nonce ≡ (
        if has_require
        then some (
            if ltb ch.expires_at now
            then challenge_expired
            else if verify_proof_of_work c
                (ch.challenge ++ codes ":" ++ ch.sender_id)
                (record { nonce = nonce; hash = hash; difficulty = get_difficulty l 0 })
            then valid
            else insufficient_work)
        else none)
unfolding verify_proof judge verify_proof_of_work meets hash_with
verify_proof-verify_proof_of_work has_require c l now ch nonce hash hashes low =
    let b : Bytes = c.utf8 (ch.challenge ++ codes ":" ++ ch.sender_id ++ codes ":" ++ nonce) in
    ap
      (λ t.
        if has_require
        then some (
            if ltb ch.expires_at now
            then challenge_expired
            else if t
            then valid
            else insufficient_work)
        else none)
      (has_zeros-value (get_difficulty l 0) (c.sha256 b) (get_difficulty-le l low) (hashes b).0
        (hashes b).1)
