-- ===== src/Network/ConnectionPool/Choice.antt =====
-- src/network/connection-pool.js: which relays are chosen.
use mathlib.Core.List.{Perm}
use chainmail_protocol.Base.{
  ℕ, suc, ◌-◌, ◌≤◌, ◌≡◌, refl, ap, sym, ◌∙◌, subst, min, List, [], ◌∷◌, ◌++◌, none, some, Text,
  length, arith, drop, take-append-drop, length-take, Bool-cases, Option-cases, inl, inr, ◌⊎◌, leb,
}
use chainmail_protocol.Base.Dict.{In, text_key}
use chainmail_protocol.Base.Sort.{sort, sort-perm, length-sort, sort-IsOrdered, Orders, IsOrdered}
use chainmail_protocol.Network.ConnectionPool.{
  ConnectionPool, RelayInfo, better, connected_relays, get_best_relays, get_relay_for_routing, pick,
  total_score, or_first,
}

abbrev pub IsBetter : Text × RelayInfo → Text × RelayInfo → Type 0
IsBetter a b = b.1.score ≤ a.1.score

better-Orders : Orders better IsBetter
better-Orders = record {
  if_true = λ x y h. ground arith;
  if_false = λ x y h. ground arith;
  trans = λ x y z h k. omega (arith, h, k);
}

-- The best relays are at most as many as wanted, in the order of their scores, and with the relays
-- that are left out, which are no better, they are a rearrangement of those that are connected.
pub get_best_relays-perm :
    (count : ℕ) (p : ConnectionPool)
    → (rest : List (Text × RelayInfo)) × Perm
        (get_best_relays count p ++ rest)
        (connected_relays p.connections p.relay_nodes)
      × IsOrdered IsBetter (get_best_relays count p ++ rest)
      × (length (get_best_relays count p)
          ≡ min count (length (connected_relays p.connections p.relay_nodes)))
unfolding get_best_relays
get_best_relays-perm count p =
    let xs : List (Text × RelayInfo) = connected_relays p.connections p.relay_nodes in
    let ys : List (Text × RelayInfo) = sort better xs in
    (
      drop count ys,
      subst (λ zs. Perm zs xs) (sym (take-append-drop count ys)) (sort-perm better xs),
      subst (IsOrdered IsBetter) (sym (take-append-drop count ys))
          (sort-IsOrdered better-Orders xs),
      length-take count ys ∙ ap (min count) (length-sort better xs),
    )

pick-In :
    (random : ℕ) (k : Text) (es : List (Text × RelayInfo))
    → pick random es ≡ some k
    → (e : Text × RelayInfo) × In e es × (e.0 ≡ k)
unfolding pick
pick-In random k [] h = cc
pick-In random k (e ∷ es) h = elim (Bool-cases (leb random e.1.score)) [
  | inl b ↦ (e, inl refl, ground arith)
  | inr b ↦ let (d, i, q) = pick-In (random - e.1.score) k es (ground arith) in (d, inr i, q)
]

or_first-cases :
    (random : ℕ) (es : List (Text × RelayInfo))
    → ((e : Text × RelayInfo) × In e es × (or_first es (pick random es) ≡ some e.0)) ⊎ (es ≡ [])
or_first-cases random [] = inr refl
or_first-cases random (e ∷ es) = elim (Option-cases (pick random (e ∷ es))) [
  | inl h ↦ inl (e, inl refl, rw h refl)
  | inr (k, h) ↦ let (d, i, q) = pick-In random k (e ∷ es) h in inl (d, i, rw h (ap some (sym q)))
]

none_left : (count : ℕ) (xs : List (Text × RelayInfo)) → 0 ≡ min (suc count) (length xs) → xs ≡ []
none_left count [] h = refl
none_left count (x ∷ xs) h = absurd (omega (arith, h))

-- A relay for routing is one of the five best, whatever the draw; there is none only if no known
-- relay is connected.
pub get_relay_for_routing-cases :
    (draw : ℕ → ℕ) (p : ConnectionPool)
    → ((e : Text × RelayInfo) × In e (get_best_relays 5 p)
        × (get_relay_for_routing draw p ≡ some e.0))
      ⊎ ((get_relay_for_routing draw p ≡ none)
          × (connected_relays p.connections p.relay_nodes ≡ []))
unfolding get_relay_for_routing
get_relay_for_routing-cases draw p =
    let es : List (Text × RelayInfo) = get_best_relays 5 p in
    elim (or_first-cases (draw (total_score es)) es) [
      | inl x ↦ inl x
      | inr e ↦ inr (
        ap (λ ys. or_first ys (pick (draw (total_score ys)) ys)) e,
        none_left 4 (connected_relays p.connections p.relay_nodes)
            (sym (ap length e) ∙ (get_best_relays-perm 5 p).3),
      )
    ]
