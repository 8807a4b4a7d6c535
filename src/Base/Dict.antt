-- ===== src/Base/Dict.antt =====
-- A JavaScript `Map` (and a key-value store that is read by key): entries in the order of insertion.
use chainmail_protocol.Base.Tests.{is_some}
use chainmail_protocol.Base.Lists.{length}
use chainmail_protocol.Base.Strings.{Text, text_discrete}
use Prim.Native.Nat.{◌≤◌}
use mathlib.Core.Bool.{Bool, true, false}
use mathlib.Core.List.{List, [], ◌∷◌, ◌++◌, map}
use mathlib.Core.Logic.{◌≢◌, ◌⊎◌, inl, inr, ite, if_pos, if_neg}
use mathlib.Core.Option.{Option, none, some}
use mathlib.Core.Path.{◌≡◌, refl, subst}
use native.Mathlib.Omega.{arith}

pub record Key (K : Type 0) : Type 0 where
  pub dec : Discrete K

instance abbrev pub text_key : Key Text
text_key = record { dec = text_discrete }

abbrev pub Dict : Type 0 → Type 0 → Type 0
Dict K V = List (K × V)

abbrev pub In : {K : Type 0} → K → List K → Type 0
In k [] = ⊥
In k (x ∷ xs) = (k ≡ x) ⊎ In k xs

pub In-append_left : {K : Type 0} (k : K) (xs ys : List K) → In k xs → In k (xs ++ ys)
In-append_left k [] ys i = absurd i
In-append_left k (x ∷ xs) ys (inl e) = inl e
In-append_left k (x ∷ xs) ys (inr i) = inr (In-append_left k xs ys i)

pub In-append_right : {K : Type 0} (k : K) (xs ys : List K) → In k ys → In k (xs ++ ys)
In-append_right k [] ys i = i
In-append_right k (x ∷ xs) ys i = inr (In-append_right k xs ys i)

pub In-append_cases : {K : Type 0} (k : K) (xs ys : List K) → In k (xs ++ ys) → In k xs ⊎ In k ys
In-append_cases k [] ys i = inr i
In-append_cases k (x ∷ xs) ys (inl e) = inl (inl e)
In-append_cases k (x ∷ xs) ys (inr i) = elim (In-append_cases k xs ys i) [
  | inl j ↦ inl (inr j)
  | inr j ↦ inr j
]

abbrev pub test_entry : {V : Type 0} → (V → Bool) → Option V → Bool
test_entry p none = false
test_entry p (some v) = p v

module _ {K V : Type 0} ⦃e : Key K⦄ where
  unfoldable pub get : K → Dict K V → Option V
  get k [] = none
  get k ((j, v) ∷ m) = ite (e.dec k j) (some v) (get k m)

  -- A new key goes to the end, a known one keeps its place.
  unfoldable pub set : K → V → Dict K V → Dict K V
  set k v [] = (k, v) ∷ []
  set k v ((j, w) ∷ m) = ite (e.dec k j) ((j, v) ∷ m) ((j, w) ∷ set k v m)

  unfoldable pub delete : K → Dict K V → Dict K V
  delete k [] = []
  delete k ((j, w) ∷ m) = ite (e.dec k j) (delete k m) ((j, w) ∷ delete k m)

  abbrev pub has : K → Dict K V → Bool
  has k m = is_some (get k m)

  pub get-set_self : (k : K) (v : V) (m : Dict K V) → get k (set k v m) ≡ some v
  unfolding get set
  get-set_self k v [] = ground arith
  get-set_self k v ((j, w) ∷ m) = ground (arith, get-set_self k v m)

  pub get-set_ne : (k j : K) (v : V) (m : Dict K V) → j ≢ k → get j (set k v m) ≡ get j m
  unfolding get set
  get-set_ne k j v [] h = ground arith
  get-set_ne k j v ((i, w) ∷ m) h = ground (arith, get-set_ne k j v m)

  pub get-set :
      (k j : K) (v : V) (m : Dict K V) → get j (set k v m) ≡ ite (e.dec j k) (some v) (get j m)
  get-set k j v m = elim (e.dec j k) as (λ d. get j (set k v m) ≡ ite d (some v) (get j m)) [
    | yes p ↦ ground (arith, get-set_self k v m)
    | no p ↦ ground (arith, get-set_ne k j v m p)
  ]

  pub get-delete_self : (k : K) (m : Dict K V) → get k (delete k m) ≡ none
  unfolding get delete
  get-delete_self k [] = refl
  get-delete_self k ((j, w) ∷ m) = ground (arith, get-delete_self k m)

  pub get-delete_ne : (k j : K) (m : Dict K V) → j ≢ k → get j (delete k m) ≡ get j m
  unfolding get delete
  get-delete_ne k j [] h = refl
  get-delete_ne k j ((i, w) ∷ m) h = ground (arith, get-delete_ne k j m)

  pub get-delete : (k j : K) (m : Dict K V) → get j (delete k m) ≡ ite (e.dec j k) none (get j m)
  get-delete k j m = elim (e.dec j k) as (λ d. get j (delete k m) ≡ ite d none (get j m)) [
    | yes p ↦ ground (arith, get-delete_self k m)
    | no p ↦ ground (arith, get-delete_ne k j m p)
  ]

  pub length-delete-le : (k : K) (m : Dict K V) → length (delete k m) ≤ length m
  unfolding delete
  length-delete-le k [] = omega arith
  length-delete-le k ((j, w) ∷ m) = ground (arith, length-delete-le k m)

  abbrev pub keys : Dict K V → List K
  keys = map (λ e. e.0)

  abbrev pub drop_if : Bool → K → Dict K V → Dict K V
  drop_if true k m = delete k m
  drop_if false k m = m

  -- `for (const [k, v] of m.entries()) if (p(v)) m.delete(k)`, over the keys.
  unfoldable pub delete_where : (V → Bool) → List K → Dict K V → Dict K V
  delete_where p [] m = m
  delete_where p (k ∷ ks) m = delete_where p ks (drop_if (test_entry p (get k m)) k m)

  pub get-delete_where_keep :
      (p : V → Bool) (ks : List K) (m : Dict K V) (k : K) (v : V)
      → get k m ≡ some v
      → p v ≡ false
      → get k (delete_where p ks m) ≡ some v
  unfolding delete_where
  get-delete_where_keep p [] m k v g h = g
  get-delete_where_keep p (j ∷ ks) m k v g h =
      get-delete_where_keep p ks (drop_if (test_entry p (get j m)) j m) k v kept h
    where
      kept : get k (drop_if (test_entry p (get j m)) j m) ≡ some v
      kept = elim (e.dec k j) [
        | yes q ↦ rw (← q) (rw g (rw h g))
        | no q ↦ ground (arith, get-delete_ne j k m q)
      ]

  -- What is left was there before.
  pub get-delete_where_of :
      (p : V → Bool) (ks : List K) (m : Dict K V) (k : K) (v : V)
      → get k (delete_where p ks m) ≡ some v
      → get k m ≡ some v
  unfolding delete_where
  get-delete_where_of p [] m k v g = g
  get-delete_where_of p (j ∷ ks) m k v g =
      back (get-delete_where_of p ks (drop_if (test_entry p (get j m)) j m) k v g)
    where
      back : get k (drop_if (test_entry p (get j m)) j m) ≡ some v → get k m ≡ some v
      back h = elim (e.dec k j) [
        | yes q ↦ ground (arith, get-delete_self j m)
        | no q ↦ ground (arith, get-delete_ne j k m q)
      ]

  pub get-delete_where_clean :
      (p : V → Bool) (ks : List K) (m : Dict K V) (k : K) (v : V)
      → In k ks
      → get k (delete_where p ks m) ≡ some v
      → p v ≡ false
  unfolding delete_where
  get-delete_where_clean p (j ∷ ks) m k v (inr i) g =
      get-delete_where_clean p ks (drop_if (test_entry p (get j m)) j m) k v i g
  get-delete_where_clean p (j ∷ ks) m k v (inl q) g = ground (
    arith,
    get-delete_where_of p ks (drop_if (test_entry p (get j m)) j m) k v g,
    get-delete_self j m,
  )
  get-delete_where_clean p [] m k v i g = absurd i

  pub In-keys : (m : Dict K V) (k : K) (v : V) → get k m ≡ some v → In k (keys m)
  unfolding get
  In-keys [] k v g = cc
  In-keys ((j, w) ∷ m) k v g = elim (e.dec k j) [
    | yes q ↦ inl q
    | no q ↦ inr (In-keys m k v (ground arith))
  ]

  -- A property of all values is kept by a new one that has it, and by a deletion.
  abbrev pub AllValues : (V → Type 0) → Dict K V → Type 0
  AllValues P [] = Unit
  AllValues P ((k, v) ∷ m) = P v × AllValues P m

  pub set-AllValues :
      (P : V → Type 0) (k : K) (v : V) (m : Dict K V)
      → P v
      → AllValues P m
      → AllValues P (set k v m)
  unfolding set
  set-AllValues P k v [] h a = (h, tt)
  set-AllValues P k v ((j, w) ∷ m) h a = elim (e.dec k j) [
    | yes q ↦ rw (if_pos (e.dec k j) q ((j, v) ∷ m) ((j, w) ∷ set k v m)) (h, a.1)
    | no q ↦
        rw (if_neg (e.dec k j) q ((j, v) ∷ m) ((j, w) ∷ set k v m))
          (a.0, set-AllValues P k v m h a.1)
  ]

  pub get-AllValues :
      (P : V → Type 0) (k : K) (v : V) (m : Dict K V) → AllValues P m → get k m ≡ some v → P v
  unfolding get
  get-AllValues P k v [] a g = cc
  get-AllValues P k v ((j, w) ∷ m) a g = elim (e.dec k j) [
    | yes q ↦ subst P (ground arith) a.0
    | no q ↦ get-AllValues P k v m a.1 (ground arith)
  ]

  pub length-set_known :
      (k : K) (v w : V) (m : Dict K V) → get k m ≡ some w → length (set k v m) ≡ length m
  unfolding get set
  length-set_known k v w [] g = ground arith
  length-set_known k v w ((j, u) ∷ m) g = ground (arith, length-set_known k v w m)
