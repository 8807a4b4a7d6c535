-- ===== src/Base/Sort.antt =====
-- `Array.prototype.sort` with a comparator: a stable sort. `no_later a b` says that the comparator
-- puts `a` before `b`, or sees no difference.
use Prim.Native.Nat.{ℕ, suc, ◌≤◌}
use chainmail_protocol.Base.Lists.{length, All}
use chainmail_protocol.Base.Tests.{if◌then◌else◌, leb, Bool-cases}
use mathlib.Core.Bool.{Bool, true, false}
use mathlib.Core.List.Perm
use mathlib.Core.List.{List, [], ◌∷◌, Perm}
use mathlib.Core.Logic.{inl, inr, ◌↔◌}
use chainmail_protocol.Base.Dict.{In}
use mathlib.Core.Path.{◌≡◌, refl}
use native.Mathlib.Omega.{arith}

module _ {A : Type 0} (no_later : A → A → Bool) where
  unfoldable pub insert : A → List A → List A
  insert x [] = x ∷ []
  insert x (y ∷ ys) = if no_later x y then x ∷ y ∷ ys else y ∷ insert x ys

  unfoldable pub sort : List A → List A
  unfolding insert
  sort [] = []
  sort (x ∷ xs) = insert x (sort xs)

  insert-perm : (x : A) (ys : List A) → Perm (insert x ys) (x ∷ ys)
  unfolding insert
  insert-perm x [] = Perm.refl _
  insert-perm x (y ∷ ys) = elim (Bool-cases (no_later x y)) [
    | inl e ↦ rw e (Perm.refl _)
    | inr e ↦ rw e (Perm.trans (Perm.cons y (insert-perm x ys)) (Perm.swap x y ys))
  ]

  pub sort-perm : (xs : List A) → Perm (sort xs) xs
  unfolding sort
  sort-perm [] = Perm.refl _
  sort-perm (x ∷ xs) = Perm.trans (insert-perm x (sort xs)) (Perm.cons x (sort-perm xs))

  length-insert : (x : A) (ys : List A) → length (insert x ys) ≡ suc (length ys)
  unfolding insert
  length-insert x [] = refl
  length-insert x (y ∷ ys) = ground (arith, length-insert x ys)

  pub length-sort : (xs : List A) → length (sort xs) ≡ length xs
  unfolding sort
  length-sort [] = refl
  length-sort (x ∷ xs) = omega (arith, length-insert x (sort xs), length-sort xs)

module _ {A : Type 0} (key : A → ℕ) where
  abbrev pub by_key : A → A → Bool
  by_key a b = leb (key a) (key b)

  abbrev pub IsSorted : List A → Type 0
  IsSorted [] = Unit
  IsSorted (x ∷ xs) = All (λ y. key x ≤ key y) xs × IsSorted xs

  insert-All :
      (n : ℕ) (x : A) (ys : List A)
      → n ≤ key x
      → All (λ y. n ≤ key y) ys
      → All (λ y. n ≤ key y) (insert by_key x ys)
  unfolding insert
  insert-All n x [] h a = (h, tt)
  insert-All n x (y ∷ ys) h a = elim (Bool-cases (by_key x y)) [
    | inl e ↦ rw e (h, a)
    | inr e ↦ rw e (a.0, insert-All n x ys h a.1)
  ]

  All-weaken : (m n : ℕ) (ys : List A) → m ≤ n → All (λ y. n ≤ key y) ys → All (λ y. m ≤ key y) ys
  All-weaken m n [] h a = tt
  All-weaken m n (y ∷ ys) h a = (omega (arith, a.0), All-weaken m n ys h a.1)

  insert-IsSorted : (x : A) (ys : List A) → IsSorted ys → IsSorted (insert by_key x ys)
  unfolding insert
  insert-IsSorted x [] s = (tt, tt)
  insert-IsSorted x (y ∷ ys) s = elim (Bool-cases (by_key x y)) [
    | inl e ↦
        let le : key x ≤ key y = ground arith in
        rw e ((le, All-weaken (key x) (key y) ys le s.0), s)
    | inr e ↦
        let le : key y ≤ key x = ground arith in
        rw e (insert-All (key y) x ys le s.0, insert-IsSorted x ys s.1)
  ]

  pub sort-IsSorted : (xs : List A) → IsSorted (sort by_key xs)
  unfolding sort
  sort-IsSorted [] = tt
  sort-IsSorted (x ∷ xs) = insert-IsSorted x (sort by_key xs) (sort-IsSorted xs)

module _ {A : Type 0} (no_later : A → A → Bool) where
  In-insert : (x y : A) (ys : List A) → In x (insert no_later y ys) ↔ In x (y ∷ ys)
  unfolding insert
  In-insert x y [] = ((λ i. i), (λ i. i))
  In-insert x y (z ∷ zs) = elim (Bool-cases (no_later y z)) [
    | inl e ↦ rw e ((λ i. i), (λ i. i))
    | inr e ↦ rw e (ground (arith, (In-insert x y zs)))
  ]

  pub In-sort : (x : A) (ys : List A) → In x (sort no_later ys) ↔ In x ys
  unfolding sort
  In-sort x [] = ((λ i. i), (λ i. i))
  In-sort x (y ∷ ys) = ground (arith, In-insert x y (sort no_later ys), In-sort x ys)

-- The order of a comparator, as a relation that it decides.
pub record Orders {A : Type 0} (no_later : A → A → Bool) (R : A → A → Type 0) : Type 0 where
  pub if_true : (x y : A) → no_later x y ≡ true → R x y
  pub if_false : (x y : A) → no_later x y ≡ false → R y x
  pub trans : (x y z : A) → R x y → R y z → R x z

abbrev pub IsOrdered : {A : Type 0} → (A → A → Type 0) → List A → Type 0
IsOrdered R [] = Unit
IsOrdered R (x ∷ xs) = All (R x) xs × IsOrdered R xs

module _ {A : Type 0} {no_later : A → A → Bool} {R : A → A → Type 0} (o : Orders no_later R) where
  All-trans : (x y : A) (ys : List A) → R x y → All (R y) ys → All (R x) ys
  All-trans x y [] h a = tt
  All-trans x y (z ∷ zs) h a = (o.trans x y z h a.0, All-trans x y zs h a.1)

  insert-All_R : (w x : A) (ys : List A) → R w x → All (R w) ys → All (R w) (insert no_later x ys)
  unfolding insert
  insert-All_R w x [] h a = (h, tt)
  insert-All_R w x (y ∷ ys) h a = elim (Bool-cases (no_later x y)) [
    | inl e ↦ rw e (h, a)
    | inr e ↦ rw e (a.0, insert-All_R w x ys h a.1)
  ]

  insert-IsOrdered : (x : A) (ys : List A) → IsOrdered R ys → IsOrdered R (insert no_later x ys)
  unfolding insert
  insert-IsOrdered x [] s = (tt, tt)
  insert-IsOrdered x (y ∷ ys) s = elim (Bool-cases (no_later x y)) [
    | inl e ↦ rw e ((o.if_true x y e, All-trans x y ys (o.if_true x y e) s.0), s)
    | inr e ↦ rw e (insert-All_R y x ys (o.if_false x y e) s.0, insert-IsOrdered x ys s.1)
  ]

  pub sort-IsOrdered : (xs : List A) → IsOrdered R (sort no_later xs)
  unfolding sort
  sort-IsOrdered [] = tt
  sort-IsOrdered (x ∷ xs) = insert-IsOrdered x (sort no_later xs) (sort-IsOrdered xs)
