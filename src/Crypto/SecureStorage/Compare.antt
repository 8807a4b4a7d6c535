-- ===== src/Crypto/SecureStorage/Compare.antt =====
-- src/crypto/secure-storage.js: the comparison in constant time against equality.
use Prim.Native.Nat.{bit_or, bit_xor, digits, differ, bit_or-bitwise, bit_xor-bitwise}
use chainmail_protocol.Base.{
  ℕ, zero, suc, ◌/◌, ◌%◌, ◌≤◌, max, ◌≡◌, refl, ap, ◌∙◌, sym, ◌↔◌, true, [], ◌∷◌, Bytes, length,
  ==_iff, ℕ_discrete, arith,
}
use chainmail_protocol.Crypto.SecureStorage.{mix, secure_compare}

differ-zero : (x y : ℕ) → differ x y ≡ 0 → x ≡ y
differ-zero zero y h = omega (arith, h)
differ-zero (suc x) zero h = absurd (omega (arith, h))
differ-zero (suc x) (suc y) h = ap suc (differ-zero x y h)

differ_self : (x : ℕ) → differ x x ≡ 0
differ_self zero = refl
differ_self (suc x) = differ_self x

or_digits-zero : (n a b : ℕ) → a ≤ n → digits (λ b. b) max n a b ≡ 0 → (a ≡ 0) × (b ≡ 0)
or_digits-zero zero zero b p h = (refl, h)
or_digits-zero zero (suc a) b p h = absurd (omega (arith, p))
or_digits-zero (suc n) zero b p h = (refl, h)
or_digits-zero (suc n) (suc a) b p h =
    let (low, _) = or_digits-zero n (suc a / 2) (b / 2) (omega (arith, p)) (omega (arith, h)) in
    absurd (omega (arith, low, h))

xor_digits-zero : (n a b : ℕ) → a ≤ n → digits (λ b. b) differ n a b ≡ 0 → a ≡ b
xor_digits-zero zero zero b p h = sym h
xor_digits-zero zero (suc a) b p h = absurd (omega (arith, p))
xor_digits-zero (suc n) zero b p h = sym h
xor_digits-zero (suc n) (suc a) b p h =
    let e = xor_digits-zero n (suc a / 2) (b / 2) (omega (arith, p)) (omega (arith, h)) in
    let d = differ-zero (suc a % 2) (b % 2) (omega (arith, h)) in omega (arith, e, d)

xor_digits_self : (n a : ℕ) → a ≤ n → digits (λ b. b) differ n a a ≡ 0
xor_digits_self zero a p = omega (arith, p)
xor_digits_self (suc n) zero p = refl
xor_digits_self (suc n) (suc a) p =
    omega (arith, xor_digits_self n (suc a / 2) (omega (arith, p)), differ_self (suc a % 2))

bit_or-zero : (a b : ℕ) → (bit_or a b ≡ 0) ↔ ((a ≡ 0) × (b ≡ 0))
bit_or-zero a b = (
  (λ h. or_digits-zero a a b (omega arith) (sym (bit_or-bitwise a b) ∙ h)),
  (λ h. ap (λ i. bit_or i b) h.0 ∙ ap (bit_or 0) h.1),
)

bit_xor-zero : (a b : ℕ) → (bit_xor a b ≡ 0) ↔ (a ≡ b)
bit_xor-zero a b = (
  (λ h. xor_digits-zero a a b (omega arith) (sym (bit_xor-bitwise a b) ∙ h)),
  (λ h. ap (bit_xor a) (sym h) ∙ bit_xor-bitwise a a ∙ xor_digits_self a a (omega arith)),
)

-- The accumulated result is zero if it was before, and nothing differs.
mix-zero :
    (r : ℕ) (xs ys : Bytes) → length xs ≡ length ys → (mix r xs ys ≡ 0) ↔ ((r ≡ 0) × (xs ≡ ys))
unfolding mix
mix-zero r [] [] h = ((λ e. (e, refl)), (λ e. e.0))
mix-zero r [] (y ∷ ys) h = absurd (omega (arith, h))
mix-zero r (x ∷ xs) [] h = absurd (omega (arith, h))
mix-zero r (x ∷ xs) (y ∷ ys) h =
    let (to, of) = mix-zero (bit_or r (bit_xor x y)) xs ys (omega (arith, h)) in
    (
      (λ e.
          let (z, rest) = to e in
          let (r_zero, x_same) = (bit_or-zero r (bit_xor x y)).0 z in
          (r_zero, cc ((bit_xor-zero x y).0 x_same, rest))),
      (λ e. of ((bit_or-zero r (bit_xor x y)).1 (e.0, (bit_xor-zero x y).1 cc), cc)),
    )

-- The comparison in constant time decides equality.
pub secure_compare_iff : (a b : Bytes) → (secure_compare a b ≡ true) ↔ (a ≡ b)
unfolding secure_compare
secure_compare_iff a b = elim (ℕ_discrete (length a) (length b)) [
  | yes e ↦ rw ((==_iff (length a) (length b)).1 e) (
    (λ h. ((mix-zero 0 a b e).0 ((==_iff (mix 0 a b) 0).0 h)).1),
    (λ q. (==_iff (mix 0 a b) 0).1 ((mix-zero 0 a b e).1 (refl, q))),
  )
  | no n ↦ (
    (λ h. absurd (n (ground (arith, h, ==_iff (length a) (length b))))),
    (λ q. absurd (n (ap length q))),
  )
]
