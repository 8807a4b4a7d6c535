-- ===== src/Crypto/ProofOfWork/Search.antt =====
-- src/crypto/pow.js: what the search finds, and what a proof shows.
use native.Mathlib.Nat.{mul_assoc, pow-succ'}
use chainmail_protocol.Base.{
  ℕ, zero, suc, ◌+◌, ◌*◌, ◌^◌, ◌≤◌, ◌<◌, ◌≡◌, refl, ◌∙◌, ap, sym, subst, ◌⊎◌, inl, inr, Bool, true,
  false, [], ◌∷◌, none, some, lt→ltb, Text, Bytes, arith, Bool-cases, length, All, ℕ_discrete,
  dec_le, codes, ◌++◌,
}
use chainmail_protocol.Crypto.{Encodings}
use chainmail_protocol.Crypto.ProofOfWork.{
  value, value_from, target, max_rounds, hash_with, meets, proof_at, search, compute_proof_of_work,
  verify_proof_of_work,
}

module _ (c : Encodings) (m : Text) (d : ℕ) where
  abbrev meets_at : ℕ → Bool
  meets_at i = meets c m d (c.digits i)

  -- The first number from `n` on that meets the target, among `k`.
  abbrev IsFound : ℕ → ℕ → ℕ → Type 0
  IsFound k n i =
      (search c k m d n ≡ some (proof_at c m d i))
      × (n ≤ i)
      × (i < n + k)
      × (meets_at i ≡ true)
      × ((j : ℕ) → n ≤ j → j < i → meets_at j ≡ false)

  abbrev IsMissed : ℕ → ℕ → Type 0
  IsMissed k n = (search c k m d n ≡ none) × ((j : ℕ) → n ≤ j → j < n + k → meets_at j ≡ false)

  meets_later :
      (n e j : ℕ)
      → meets_at n ≡ false
      → ((j : ℕ) → n + 1 ≤ j → j < e → meets_at j ≡ false)
      → n ≤ j
      → j < e
      → meets_at j ≡ false
  meets_later n e j h f p q = elim (ℕ_discrete n j) [
    | yes x ↦ subst (λ i. meets_at i ≡ false) x h
    | no x ↦ f j (omega (arith, p)) q
  ]

  search-cases : (k n : ℕ) → ((i : ℕ) × IsFound k n i) ⊎ IsMissed k n
  unfolding search
  search-cases zero n = inr (refl, (λ j p q. absurd (omega (arith, p, q))))
  search-cases (suc k) n = elim (Bool-cases (meets_at n)) [
    | inl e ↦
        inl (n, (rw e refl, omega arith, omega arith, e, (λ j p q. absurd (omega (arith, p, q)))))
    | inr e ↦ elim (search-cases k (n + 1)) [
      | inl (i, (s, p, q, t, f)) ↦
          inl (i, (rw e s, omega (arith, p), omega (arith, q), t, (λ j. meets_later n i j e f)))
      | inr (s, f) ↦ inr (rw e s, (λ j p q. meets_later n (n + 1 + k) j e f p (omega (arith, q))))
    ]
  ]

  -- The search ends, within 2^40 + 1 rounds, with a proof that is accepted exactly if some number
  -- `j` up to 2^40 makes one, and the number that it finds is the lowest; otherwise it fails.
  pub compute_proof_of_work-cases :
      (j : ℕ)
      → j < max_rounds
      → ((i : ℕ) × (compute_proof_of_work c m d ≡ some (proof_at c m d i))
          × (i < max_rounds)
          × (verify_proof_of_work c m (proof_at c m d i) ≡ true)
          × ((i ≤ j) ⊎ (verify_proof_of_work c m (proof_at c m d j) ≡ false)))
        ⊎ ((compute_proof_of_work c m d ≡ none)
            × (verify_proof_of_work c m (proof_at c m d j) ≡ false))
  unfolding compute_proof_of_work verify_proof_of_work
  compute_proof_of_work-cases j h = elim (search-cases max_rounds 0) [
    | inl (i, (s, p, q, t, f)) ↦ inl (
      i,
      s,
      q,
      t,
      elim (dec_le i j) [ yes le ↦ inl le | no gt ↦ inr (f j (omega arith) (omega (arith, gt))) ],
    )
    | inr (s, f) ↦ inr (s, f j (omega arith) h)
  ]

pub value_from-lt :
    (acc p : ℕ) (bs : Bytes)
    → acc < p
    → All (λ b. b < 256) bs
    → value_from acc bs < p * 256 ^ length bs
value_from-lt acc p [] h a = omega (arith, h)
value_from-lt acc p (b ∷ bs) h a =
    subst (λ n. value_from (acc * 256 + b) bs < n)
      (mul_assoc p 256 (256 ^ length bs) ∙ ap (p *◌) (sym (pow-succ' 256 (length bs))))
      (value_from-lt (acc * 256 + b) (p * 256) bs (omega (arith, h, a.0)) a.1)

-- A proof names its own difficulty, and nothing but the difficulty that it names is checked: with
-- the difficulty 0 every proof is accepted, for every message, if a hash is 32 bytes.
pub verify_proof_of_work-zero :
    (c : Encodings) (m nonce hash : Text)
    → ((b : Bytes) → (length (c.sha256 b) ≡ 32) × All (λ x. x < 256) (c.sha256 b))
    → verify_proof_of_work c m (record { nonce = nonce; hash = hash; difficulty = 0 }) ≡ true
unfolding verify_proof_of_work meets value target hash_with
verify_proof_of_work-zero c m nonce hash h =
    let e : Bytes = c.utf8 (m ++ codes ":" ++ nonce) in
    let b : Bytes = c.sha256 e in
    lt→ltb (value b) (2 ^ 256) (
      subst (λ n. value_from 0 b < 1 * 256 ^ n) (h e).0 (value_from-lt 0 1 b (omega arith) (h e).1))
