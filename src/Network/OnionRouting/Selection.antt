-- ===== src/Network/OnionRouting/Selection.antt =====
-- src/network/onion-routing.js, `selectRelays`.
use chainmail_protocol.Base.{
  ℕ, suc, ◌-◌, ◌≤◌, ◌<◌, ◌≡◌, refl, ◌⊎◌, inl, inr, List, [], ◌∷◌, ◌++◌, none, some, arith, Text,
  length, All, Bool-cases, leb, dec_le,
}
use chainmail_protocol.Base.Dict.{Dict, text_key}
use chainmail_protocol.Base.Sort.{sort, sort-perm, length-sort}
use chainmail_protocol.Network.OnionRouting.{
  Relay, pick, select, select_relays, total_score, keep_allowed, values, by_score,
}
use mathlib.Core.List.Perm
use mathlib.Core.List.{Perm}

nonempty : (rs : List Relay) → 0 < total_score rs → 0 < length rs
nonempty [] h = h
nonempty (r ∷ rs) h = omega arith

-- A draw within the total picks one relay and leaves the others.
pick-some :
    (draw : ℕ) (rs : List Relay)
    → draw ≤ total_score rs
    → 0 < length rs
    → (x : Relay) × (others : List Relay) × (pick draw rs ≡ some (x, others))
      × (length rs ≡ suc (length others))
      × Perm (x ∷ others) rs
unfolding pick
pick-some draw [] h pos = absurd (omega arith)
pick-some draw (r ∷ rs) h pos = elim (Bool-cases (leb draw r.score)) [
  | inl e ↦ (r, rs, rw e refl, refl, Perm.refl _)
  | inr e ↦
      let (x, others, found, count, same) =
        pick-some (draw - r.score) rs (ground arith) (nonempty rs (ground arith)) in
      (
        x,
        r ∷ others,
        rw e (rw (found, pick) refl),
        omega arith,
        Perm.trans (Perm.swap r x others) (Perm.cons r same),
      )
]

abbrev pub IsDraw : (ℕ → ℕ) → Type 0
IsDraw draw = (total : ℕ) → draw total ≤ total

select-perm :
    (draws : List (ℕ → ℕ)) (rs : List Relay)
    → All IsDraw draws
    → length draws ≤ length rs
    → (length (select draws rs) ≡ length draws)
      × ((rest : List Relay) × Perm (select draws rs ++ rest) rs)
unfolding select
select-perm [] rs d h = (refl, (rs, Perm.refl rs))
select-perm (draw ∷ draws) rs d h =
    let (x, others, found, count, same) =
      pick-some (draw (total_score rs)) rs (d.0 (total_score rs)) (omega arith) in
    let (size, (rest, perm)) = select-perm draws others d.1 (omega arith) in
    rw (found, select) (omega arith, (rest, Perm.trans (Perm.cons x perm) same))

-- With at least as many relays known and not excluded as hops wanted, and draws within the total
-- score, the selection succeeds: it has one relay for each hop, and together with some others it is
-- a rearrangement of the known relays that are not excluded, so none is taken twice. With fewer
-- relays the selection fails.
pub select_relays-perm :
    (draws : List (ℕ → ℕ)) (excluded : List Text) (known : Dict Text Relay)
    → All IsDraw draws
    → ((length draws ≤ length (keep_allowed excluded (values known)))
        × ((rs : List Relay) × (rest : List Relay) × (select_relays draws excluded known ≡ some rs)
            × (length rs ≡ length draws)
            × Perm (rs ++ rest) (keep_allowed excluded (values known))))
      ⊎ ((length (keep_allowed excluded (values known)) < length draws)
          × (select_relays draws excluded known ≡ none))
unfolding select_relays
select_relays-perm draws excluded known d =
    let allowed = keep_allowed excluded (values known) in
    let same = length-sort by_score allowed in
    elim (dec_le (length draws) (length allowed)) [
      | yes h ↦
          let (size, (rest, perm)) = select-perm draws (sort by_score allowed) d (omega arith) in
          inl (
            h,
            (
              select draws (sort by_score allowed),
              rest,
              ground arith,
              size,
              Perm.trans perm (sort-perm by_score allowed),
            ),
          )
      | no h ↦ inr (omega arith, ground arith)
    ]
