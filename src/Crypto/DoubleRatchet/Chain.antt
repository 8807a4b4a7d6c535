-- ===== src/Crypto/DoubleRatchet/Chain.antt =====
-- src/crypto/double-ratchet.js: one receiving chain, whose messages arrive in any order.
use chainmail_protocol.Base.{
  ℕ, zero, suc, ◌+◌, ◌-◌, ◌≤◌, ◌<◌, ◌≡◌, refl, ◌⊎◌, true, none, some, List, arith, Bytes,
}
use chainmail_protocol.Base.Dict.{Dict, In, get, set, get-set_self, get-set_ne}
use chainmail_protocol.Crypto.{Primitives}
use chainmail_protocol.Crypto.DoubleRatchet.{
  skip_key, Sealed, State, max_skip, next_chain_key, message_key, open_with, skip_keys,
  skip_in_chain, skip_message_keys, ratchet_if_new, is_current, open_next, open_in_order, decrypt,
}

module _ (p : Primitives) where
  -- The chain key after `n` steps, and the key of message `n`.
  unfoldable pub chain_at : Bytes → ℕ → Bytes
  chain_at chain zero = chain
  chain_at chain (suc n) = chain_at (next_chain_key p chain) n

  unfoldable pub key_at : Bytes → ℕ → Bytes
  key_at chain n = message_key p (chain_at chain n)

  pub chain_at-suc :
      (chain : Bytes) (n : ℕ) → next_chain_key p (chain_at chain n) ≡ chain_at chain (n + 1)
  unfolding chain_at
  chain_at-suc chain zero = refl
  chain_at-suc chain (suc n) = ground (arith, chain_at-suc (next_chain_key p chain) n)

  pub chain_at-add :
      (chain : Bytes) (m n : ℕ) → chain_at (chain_at chain m) n ≡ chain_at chain (m + n)
  unfolding chain_at
  chain_at-add chain zero n = ground arith
  chain_at-add chain (suc m) n =
      let e : suc m + n ≡ suc (m + n) = omega arith in
      rw e (chain_at-add (next_chain_key p chain) m n)

  pub key_at-add : (chain : Bytes) (m n : ℕ) → key_at (chain_at chain m) n ≡ key_at chain (m + n)
  unfolding key_at
  key_at-add chain m n = rw (chain_at-add chain m n)

  pub skip_keys-chain :
      (k : ℕ) (d : Bytes) (nr : ℕ) (chain : Bytes) (m : Dict (Bytes × ℕ) Bytes)
      → (skip_keys p k d nr chain m).0 ≡ chain_at chain k
  unfolding skip_keys chain_at
  skip_keys-chain zero d nr chain m = refl
  skip_keys-chain (suc k) d nr chain m =
      skip_keys-chain k d (nr + 1) (next_chain_key p chain) (set (d, nr) (message_key p chain) m)

  pub skip_keys-outside :
      (k : ℕ) (d : Bytes) (nr : ℕ) (chain : Bytes) (m : Dict (Bytes × ℕ) Bytes) (j : ℕ)
      → (j < nr) ⊎ (nr + k ≤ j)
      → get (d, j) (skip_keys p k d nr chain m).1 ≡ get (d, j) m
  unfolding skip_keys
  skip_keys-outside zero d nr chain m j h = refl
  skip_keys-outside (suc k) d nr chain m j h = ground (
    arith,
    skip_keys-outside k d (nr + 1) (next_chain_key p chain) (set (d, nr) (message_key p chain) m) j,
    get-set_ne (d, nr) (d, j) (message_key p chain) m,
  )

  pub skip_keys-inside :
      (k : ℕ) (d : Bytes) (nr : ℕ) (chain : Bytes) (m : Dict (Bytes × ℕ) Bytes) (i : ℕ)
      → i < k
      → get (d, nr + i) (skip_keys p k d nr chain m).1 ≡ some (key_at chain i)
  unfolding skip_keys key_at chain_at
  skip_keys-inside (suc k) d nr chain m zero h = ground (
    arith,
    skip_keys-outside k d (nr + 1) (next_chain_key p chain) (set (d, nr) (message_key p chain) m)
        nr,
    get-set_self (d, nr) (message_key p chain) m,
  )
  skip_keys-inside (suc k) d nr chain m (suc i) h = ground (
    arith,
    skip_keys-inside k d (nr + 1) (next_chain_key p chain) (set (d, nr) (message_key p chain) m) i,
  )
  skip_keys-inside zero d nr chain m i h = absurd (omega arith)

  -- The receiver stands on the chain that starts at `chain` under the remote key `d`, and has opened
  -- the messages `got` of it: of the messages behind it, the keys of exactly the others are stored.
  pub record Follows (d chain : Bytes) (got : List ℕ) (s : State) : Type 0 where
    pub remote : s.dhr ≡ some d
    pub here : s.ckr ≡ some (chain_at chain s.nr)
    pub behind : (j : ℕ) → In j got → j < s.nr
    pub kept : (j : ℕ) → j < s.nr → ¬ In j got → get (d, j) s.skipped ≡ some (key_at chain j)
    pub gone : (j : ℕ) → In j got → get (d, j) s.skipped ≡ none
    pub ahead : (j : ℕ) → s.nr ≤ j → get (d, j) s.skipped ≡ none

  -- Message `n` of the chain.
  abbrev pub message : Bytes → Bytes → ℕ → ℕ → Bytes → Bytes → Bytes → Sealed
  message d chain pn n nonce ad plaintext = record {
    header = record { dh = d; pn = pn; n = n };
    nonce = nonce;
    ciphertext = p.encrypt (key_at chain n) nonce ad plaintext;
  }

  -- The state after a message of the chain that is ahead of the receiver.
  abbrev pub advanced : Bytes → Bytes → ℕ → State → State
  advanced d chain n s = record s {
    ckr = some (chain_at chain (n + 1));
    nr = n + 1;
    skipped = (skip_keys p (n - s.nr) d s.nr (chain_at chain s.nr) s.skipped).1;
  }

  pub is_current_self : (d : Bytes) → is_current p d (some d) ≡ true
  unfolding is_current
  is_current_self d = ground arith

  -- What `decrypt` does with any message, genuine or not, of the current chain and ahead.
  pub decrypt_ahead :
      (d chain secret nonce ciphertext ad : Bytes) (pn n : ℕ) (s : State)
      → s.dhr ≡ some d
      → s.ckr ≡ some (chain_at chain s.nr)
      → get (d, n) s.skipped ≡ none
      → s.nr ≤ n
      → n ≤ s.nr + max_skip
      → decrypt p secret
          (record {
            header = record { dh = d; pn = pn; n = n };
            nonce = nonce;
            ciphertext = ciphertext;
          })
          ad
          s
        ≡ (advanced d chain n s, open_with p (key_at chain n) nonce ad ciphertext)
  unfolding decrypt open_in_order ratchet_if_new skip_message_keys skip_in_chain open_next key_at
  decrypt_ahead d chain secret nonce ciphertext ad pn n s remote here none_kept le near = ground (
    arith,
    is_current_self d,
    skip_keys-chain (n - s.nr) d s.nr (chain_at chain s.nr) s.skipped,
    chain_at-add chain s.nr (n - s.nr),
    chain_at-suc chain n,
  )
