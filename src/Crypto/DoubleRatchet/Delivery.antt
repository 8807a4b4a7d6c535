-- ===== src/Crypto/DoubleRatchet/Delivery.antt =====
-- src/crypto/double-ratchet.js: out-of-order delivery on one receiving chain, and what a message
-- that does not authenticate does to it.
use chainmail_protocol.Base.{
  ℕ, ◌+◌, ◌-◌, ◌≤◌, ◌<◌, ◌≡◌, refl, ◌≢◌, ◌⊎◌, inl, inr, ap, none, some, List, [], ◌∷◌, arith, Bytes,
  dec_lt, ℕ_discrete, max, map,
}
use chainmail_protocol.Base.Dict.{In, get, delete, get-delete_self, get-delete_ne}
use chainmail_protocol.Crypto.{Primitives, Laws}
use chainmail_protocol.Crypto.DoubleRatchet.{
  skip_key, State, Result, ok, max_skip, open_with, skip_keys, decrypt, open_in_order,
  ratchet_if_new, skip_message_keys, skip_in_chain, open_next,
}
use chainmail_protocol.Crypto.DoubleRatchet.Chain.{
  chain_at, key_at, Follows, message, advanced, decrypt_ahead, skip_keys-inside, skip_keys-outside,
  key_at-add, is_current_self, chain_at-suc,
}

In-tail : {j n : ℕ} (got : List ℕ) → In j (n ∷ got) → j ≢ n → In j got
In-tail got (inl e) q = absurd (q e)
In-tail got (inr i) q = i

pub record Parcel : Type 0 where
  pub n : ℕ
  pub pn : ℕ
  pub secret : Bytes
  pub nonce : Bytes
  pub ad : Bytes
  pub plaintext : Bytes

-- No number twice, and none of `got`.
abbrev pub AllNew : List ℕ → List Parcel → Type 0
AllNew got [] = Unit
AllNew got (m ∷ ms) = (¬ In m.n got) × AllNew (m.n ∷ got) ms

-- Each number at most 100 ahead of the ones before it.
abbrev pub AllNear : ℕ → List Parcel → Type 0
AllNear nr [] = Unit
AllNear nr (m ∷ ms) = (m.n ≤ nr + max_skip) × AllNear (max nr (m.n + 1)) ms

module _ (p : Primitives) (d chain : Bytes) where
  -- Parcels in the order in which they arrive: message numbers with their contents.
  unfoldable pub deliver : State → List Parcel → List (Result Bytes)
  deliver s [] = []
  deliver s (m ∷ ms) =
      let r = decrypt p m.secret (message p d chain m.pn m.n m.nonce m.ad m.plaintext) m.ad s in
      r.1 ∷ deliver r.0 ms

module _ (p : Primitives) (laws : Laws p) (d chain : Bytes) where
  open_message :
      (n : ℕ) (nonce ad pt : Bytes)
      → open_with p (key_at p chain n) nonce ad (p.encrypt (key_at p chain n) nonce ad pt) ≡ ok pt
  open_message n nonce ad pt = rw (laws.decrypt-encrypt (key_at p chain n) nonce ad pt)

  ahead-Follows :
      (got : List ℕ) (s : State) (n : ℕ)
      → Follows p d chain got s
      → s.nr ≤ n
      → Follows p d chain (n ∷ got) (advanced p d chain n s)
  ahead-Follows got s n f le = record {
    remote = f.remote;
    here = refl;
    behind = ahead_behind;
    kept = ahead_kept;
    gone = ahead_gone;
    ahead = λ j h. ground (arith, outside j, f.ahead j);
  }
    where
      outside :
          (j : ℕ)
          → (j < s.nr) ⊎ (n ≤ j)
          → get (d, j) (skip_keys p (n - s.nr) d s.nr (chain_at p chain s.nr) s.skipped).1
            ≡ get (d, j) s.skipped
      outside j h =
          skip_keys-outside p (n - s.nr) d s.nr (chain_at p chain s.nr) s.skipped j (ground arith)

      inside :
          (j : ℕ)
          → s.nr ≤ j
          → j < n
          → get (d, j) (skip_keys p (n - s.nr) d s.nr (chain_at p chain s.nr) s.skipped).1
            ≡ some (key_at p chain j)
      inside j h k =
          let e : s.nr + (j - s.nr) ≡ j = omega arith in
          let stored =
            skip_keys-inside p (n - s.nr) d s.nr (chain_at p chain s.nr) s.skipped (j - s.nr)
              (omega arith) in
          let shifted = key_at-add p chain s.nr (j - s.nr) in rw e at (rw shifted at stored)

      ahead_kept :
          (j : ℕ)
          → j < n + 1
          → ¬ In j (n ∷ got)
          → get (d, j) (skip_keys p (n - s.nr) d s.nr (chain_at p chain s.nr) s.skipped).1
            ≡ some (key_at p chain j)
      ahead_kept j h i = elim (dec_lt j s.nr) [
        | yes k ↦ rw (outside j (inl k)) (f.kept j k (λ m. i (inr m)))
        | no k ↦ inside j (omega arith) (let q : j ≢ n = λ e. i (inl e) in omega arith)
      ]

      ahead_gone :
          (j : ℕ)
          → In j (n ∷ got)
          → get (d, j) (skip_keys p (n - s.nr) d s.nr (chain_at p chain s.nr) s.skipped).1 ≡ none
      ahead_gone j (inl e) = rw (outside j (inr (omega arith))) (f.ahead j (omega arith))
      ahead_gone j (inr i) = rw (outside j (inl (f.behind j i))) (f.gone j i)

      ahead_behind : (j : ℕ) → In j (n ∷ got) → j < n + 1
      ahead_behind j (inl e) = omega arith
      ahead_behind j (inr i) = omega (arith, f.behind j i)

  -- The state after a message whose key was stored.
  abbrev picked : ℕ → State → State
  picked n s = record s { skipped = delete (d, n) s.skipped }

  stored-Follows :
      (got : List ℕ) (s : State) (n : ℕ)
      → Follows p d chain got s
      → n < s.nr
      → Follows p d chain (n ∷ got) (picked n s)
  stored-Follows got s n f lt = record {
    remote = f.remote;
    here = f.here;
    behind = still_behind;
    kept = λ j h i.
        rw (get-delete_ne (d, n) (d, j) s.skipped (λ e. i (inl (ap (λ x. x.1) e))))
          (f.kept j h (λ k. i (inr k)));
    gone = still_gone;
    ahead = λ j h.
        rw (get-delete_ne (d, n) (d, j) s.skipped (λ e. omega (arith, ap (λ x. x.1) e)))
          (f.ahead j h);
  }
    where
      still_behind : (j : ℕ) → In j (n ∷ got) → j < s.nr
      still_behind j (inl e) = omega arith
      still_behind j (inr i) = f.behind j i

      still_gone : (j : ℕ) → In j (n ∷ got) → get (d, j) (delete (d, n) s.skipped) ≡ none
      still_gone j i = elim (ℕ_discrete j n) [
        | yes e ↦ rw e (get-delete_self (d, n) s.skipped)
        | no q ↦
            rw (get-delete_ne (d, n) (d, j) s.skipped (λ e. q (ap (λ x. x.1) e)))
              (f.gone j (In-tail got i q))
      ]

  decrypt_stored :
      (got : List ℕ) (s : State) (secret nonce ad pt : Bytes) (pn n : ℕ)
      → Follows p d chain got s
      → ¬ In n got
      → n < s.nr
      → decrypt p secret (message p d chain pn n nonce ad pt) ad s ≡ (picked n s, ok pt)
  unfolding decrypt
  decrypt_stored got s secret nonce ad pt pn n f new lt =
      ground (arith, f.kept n lt new, open_message n nonce ad pt)

  -- The key of an unopened message of the chain, at most 100 ahead, is found wherever it stands.
  pub decrypt-message :
      (got : List ℕ) (s : State) (secret nonce ad pt : Bytes) (pn n : ℕ)
      → Follows p d chain got s
      → ¬ In n got
      → n ≤ s.nr + max_skip
      → ((decrypt p secret (message p d chain pn n nonce ad pt) ad s).1 ≡ ok pt)
        × Follows p d chain (n ∷ got) (decrypt p secret (message p d chain pn n nonce ad pt) ad s).0
        × ((decrypt p secret (message p d chain pn n nonce ad pt) ad s).0.nr ≡ max s.nr (n + 1))
  decrypt-message got s secret nonce ad pt pn n f new near = elim (dec_lt n s.nr) [
    | yes lt ↦
        rw (decrypt_stored got s secret nonce ad pt pn n f new lt)
          (refl, stored-Follows got s n f lt, omega arith)
    | no ge ↦
        rw
          (decrypt_ahead p d chain secret nonce _ ad pn n s f.remote f.here
            (f.ahead n (omega arith)) (omega arith) near)
          (open_message n nonce ad pt, ahead-Follows got s n f (omega arith), omega arith)
  ]

  deliver_from :
      (got : List ℕ) (s : State) (ms : List Parcel)
      → Follows p d chain got s
      → AllNew got ms
      → AllNear s.nr ms
      → deliver p d chain s ms ≡ map (λ m. ok m.plaintext) ms
  unfolding deliver
  deliver_from got s [] f new near = refl
  deliver_from got s (m ∷ ms) f new near =
      let (opened, f', nr') =
        decrypt-message got s m.secret m.nonce m.ad m.plaintext m.pn m.n f new.0 near.0 in
      ground (arith, opened, deliver_from (m.n ∷ got) _ ms f' new.1 (rw nr' near.1))

  -- Messages of a chain arrive in any order: each that is new and at most 100 ahead of the highest
  -- one seen is opened to its plaintext, however many of the others are late or never come.
  pub deliver-plaintexts :
      (s : State) (ms : List Parcel)
      → Follows p d chain [] s
      → AllNew [] ms
      → AllNear s.nr ms
      → deliver p d chain s ms ≡ map (λ m. ok m.plaintext) ms
  deliver-plaintexts s ms f new near = deliver_from [] s ms f new near

  -- What `decrypt` does with any message of the current chain whose number lies behind and whose key
  -- is not stored: it takes the next key of the chain.
  decrypt_behind :
      (secret nonce ciphertext ad : Bytes) (pn n : ℕ) (s : State)
      → s.dhr ≡ some d
      → s.ckr ≡ some (chain_at p chain s.nr)
      → get (d, n) s.skipped ≡ none
      → n < s.nr
      → decrypt p secret
          (record {
            header = record { dh = d; pn = pn; n = n };
            nonce = nonce;
            ciphertext = ciphertext;
          })
          ad
          s
        ≡ (
          record s { ckr = some (chain_at p chain (s.nr + 1)); nr = s.nr + 1 },
          open_with p (key_at p chain s.nr) nonce ad ciphertext,
        )
  unfolding decrypt open_in_order ratchet_if_new skip_message_keys skip_in_chain skip_keys open_next
      key_at
  decrypt_behind secret nonce ciphertext ad pn n s remote here none_kept lt =
      let e : n - s.nr ≡ 0 = omega arith in
      ground (arith, is_current_self p d, chain_at-suc p chain s.nr)

  -- A message that fails to authenticate costs the next genuine one: after any message that claims
  -- the next number of the current chain, whatever its ciphertext, the genuine message of that
  -- number is opened with the key of the number after it.
  pub decrypt-forged :
      (secret nonce ciphertext ad secret' nonce' ad' pt : Bytes) (pn pn' : ℕ) (got : List ℕ)
      (s : State)
      → Follows p d chain got s
      → (decrypt p secret'
          (message p d chain pn' s.nr nonce' ad' pt)
          ad'
          (decrypt p secret
            (record {
              header = record { dh = d; pn = pn; n = s.nr };
              nonce = nonce;
              ciphertext = ciphertext;
            })
            ad
            s).0).1
        ≡ open_with p
            (key_at p chain (s.nr + 1))
            nonce'
            ad'
            (p.encrypt (key_at p chain s.nr) nonce' ad' pt)
  unfolding skip_keys
  decrypt-forged secret nonce ciphertext ad secret' nonce' ad' pt pn pn' got s f =
      let first =
        decrypt_ahead p d chain secret nonce ciphertext ad pn s.nr s f.remote f.here
          (f.ahead s.nr (omega arith)) (omega arith) (omega arith) in
      let e : s.nr - s.nr ≡ 0 = omega arith in
      let gone : get (d, s.nr) (advanced p d chain s.nr s).skipped ≡ none =
        rw e (f.ahead s.nr (omega arith)) in
      rw first (
        ap (λ r. r.1)
          (decrypt_behind secret' nonce' _ ad' pn' s.nr (advanced p d chain s.nr s) f.remote refl
            gone (omega arith)))
