-- ===== src/Crypto/DoubleRatchet/Conversation.antt =====
-- src/crypto/double-ratchet.js: two sessions that write to one another.
use chainmail_protocol.Base.{
  ℕ, ◌+◌, ◌-◌, ◌≡◌, refl, ◌≢◌, ap, Bool, true, false, Option, none, some, List, [], ◌∷◌, arith,
  Bytes, map,
}
use chainmail_protocol.Base.Dict.{get}
use chainmail_protocol.Crypto.{Primitives, Laws}
use chainmail_protocol.Crypto.DoubleRatchet.{
  skip_key, KeyPair, Sealed, State, Result, ok, err, kdf_rk, next_chain_key, message_key, open_with,
  key_pair, encrypt, skip_keys, skip_in_chain, skip_message_keys, ratchet_with, dh_ratchet,
  is_current, ratchet_if_new, open_next, open_in_order, decrypt, init_as_initiator,
  init_as_responder, new_state,
}
use chainmail_protocol.Crypto.DoubleRatchet.Chain.{is_current_self}

-- A message, with the randomness of the two calls that carry it.
pub record Letter : Type 0 where
  pub plaintext : Bytes
  pub ad : Bytes
  pub nonce : Bytes
  pub secret : Bytes

module _ (p : Primitives) where
  pub receive : State → Letter → Result Sealed → State × Result Bytes
  receive y m (err e) = (y, err e)
  receive y m (ok sealed) = decrypt p m.secret sealed m.ad y

  -- One side encrypts, the other decrypts: the two states after it, and what the receiver reads.
  unfoldable pub send : State → State → Letter → State × State × Result Bytes
  unfolding receive
  send x y m =
      let (x', sealed) = encrypt p m.nonce m.plaintext m.ad x in
      let (y', r) = receive y m sealed in (x', y', r)

  -- Letters in turn. `true` is one from the side that wrote last, which is the first state.
  unfoldable pub converse : State → State → List (Bool × Letter) → List (Result Bytes)
  converse x y [] = []
  converse x y ((true, m) ∷ ms) = let (x', y', r) = send x y m in r ∷ converse x' y' ms
  converse x y ((false, m) ∷ ms) = let (y', x', r) = send y x m in r ∷ converse y' x' ms

  -- Each key pair that a ratchet generates has another public key than the one it replaces.
  abbrev pub AllFresh : Bytes → Bytes → List (Bool × Letter) → Type 0
  AllFresh a b [] = Unit
  AllFresh a b ((true, m) ∷ ms) = AllFresh a b ms
  AllFresh a b ((false, m) ∷ ms) =
      (p.get_public_key m.secret ≢ p.get_public_key a) × AllFresh b m.secret ms

  encrypt_with :
      (c nonce pt ad : Bytes) (pair : KeyPair) (x : State)
      → x.cks ≡ some c
      → x.dhs ≡ some pair
      → encrypt p nonce pt ad x ≡ (
        record x { cks = some (next_chain_key p c); ns = x.ns + 1 },
        ok (record {
          header = record { dh = pair.public_key; pn = x.pn; n = x.ns };
          nonce = nonce;
          ciphertext = p.encrypt (message_key p c) nonce ad pt;
        }),
      )
  unfolding encrypt
  encrypt_with c nonce pt ad pair x e f = ground arith

  -- The next message of the current chain.
  decrypt_same :
      (d c secret nonce ciphertext ad : Bytes) (pn : ℕ) (y : State)
      → y.dhr ≡ some d
      → y.ckr ≡ some c
      → y.skipped ≡ []
      → decrypt p secret
          (record {
            header = record { dh = d; pn = pn; n = y.nr };
            nonce = nonce;
            ciphertext = ciphertext;
          })
          ad
          y
        ≡ (
          record y { ckr = some (next_chain_key p c); nr = y.nr + 1 },
          open_with p (message_key p c) nonce ad ciphertext,
        )
  unfolding decrypt open_in_order ratchet_if_new skip_message_keys skip_in_chain skip_keys open_next
      get
  decrypt_same d c secret nonce ciphertext ad pn y remote here none_kept =
      let e : y.nr - y.nr ≡ 0 = omega arith in ground (arith, is_current_self p d)

  not_current : (d : Bytes) (o : Option Bytes) → o ≢ some d → is_current p d o ≡ false
  unfolding is_current
  not_current d none h = refl
  not_current d (some e) h = ground arith

  -- The state after a first message under a new remote key.
  abbrev turned : Bytes → Bytes → Bytes → Bytes → State → State
  turned a root secret d x =
      let s =
        ratchet_with p (key_pair p a) root secret d
          (record x { pn = x.ns; ns = 0; nr = 0; dhr = some d }) in
      record s { ckr = some (next_chain_key p (kdf_rk p root (p.get_shared_secret a d)).1); nr = 1 }

  skip_nothing :
      (x : State) → (x.dhr ≡ none → x.ckr ≡ none) → skip_message_keys p x.nr x ≡ (x, ok tt)
  unfolding skip_message_keys skip_in_chain skip_keys
  skip_nothing x h = let e : x.nr - x.nr ≡ 0 = omega arith in ground (arith, h)

  -- The first message under a new remote key.
  decrypt_new :
      (a d root secret nonce ciphertext ad : Bytes) (x : State)
      → x.dhs ≡ some (key_pair p a)
      → x.rk ≡ some root
      → x.dhr ≢ some d
      → (x.dhr ≡ none → x.ckr ≡ none)
      → x.skipped ≡ []
      → decrypt p secret
          (record {
            header = record { dh = d; pn = x.nr; n = 0 };
            nonce = nonce;
            ciphertext = ciphertext;
          })
          ad
          x
        ≡ (
          turned a root secret d x,
          open_with p
              (message_key p (kdf_rk p root (p.get_shared_secret a d)).1)
              nonce
              ad
              ciphertext,
        )
  unfolding decrypt open_in_order ratchet_if_new skip_message_keys skip_in_chain skip_keys open_next
      get dh_ratchet ratchet_with
  decrypt_new a d root secret nonce ciphertext ad x pair has_root new linked none_kept =
      ground (arith, not_current d x.dhr new, skip_nothing x linked)

  -- The first side wrote last, and the second has read it all; `a` and `b` are their private keys.
  record Turn (a b : Bytes) (x y : State) : Type 0 where
    pair_x : x.dhs ≡ some (key_pair p a)
    pair_y : y.dhs ≡ some (key_pair p b)
    reads : y.dhr ≡ some (p.get_public_key a)
    unread : x.dhr ≢ some (p.get_public_key b)
    linked : x.dhr ≡ none → x.ckr ≡ none
    chain : y.ckr ≡ x.cks
    count : y.nr ≡ x.ns
    old_count : x.nr ≡ y.pn
    root_x : Bytes
    root_y : Bytes
    chain_y : Bytes
    has_root_x : x.rk ≡ some root_x
    has_root_y : y.rk ≡ some root_y
    agreed : kdf_rk p root_x (p.get_shared_secret a (p.get_public_key b)) ≡ (root_y, chain_y)
    no_skipped_x : x.skipped ≡ []
    no_skipped_y : y.skipped ≡ []
    unsent : y.ns ≡ 0
    has_chain_y : y.cks ≡ some chain_y

  module _ (laws : Laws p) where
    opened :
        (key nonce ad pt : Bytes) → open_with p key nonce ad (p.encrypt key nonce ad pt) ≡ ok pt
    opened key nonce ad pt = rw (laws.decrypt-encrypt key nonce ad pt)

    send_again :
        (a b c : Bytes) (x y : State) (m : Letter)
        → Turn a b x y
        → x.cks ≡ some c
        → send x y m ≡ (
          record x { cks = some (next_chain_key p c); ns = x.ns + 1 },
          record y { ckr = some (next_chain_key p c); nr = y.nr + 1 },
          ok m.plaintext,
        )
    unfolding send
    send_again a b c x y m t sending = ground (
      arith,
      encrypt_with c m.nonce m.plaintext m.ad (key_pair p a) x sending t.pair_x,
      decrypt_same (p.get_public_key a) c m.secret m.nonce
          (p.encrypt (message_key p c) m.nonce m.ad m.plaintext) m.ad x.pn y t.reads,
      opened (message_key p c) m.nonce m.ad m.plaintext,
    )

    again-Turn :
        (a b c : Bytes) (x y : State)
        → Turn a b x y
        → Turn a b
            (record x { cks = some (next_chain_key p c); ns = x.ns + 1 })
            (record y { ckr = some (next_chain_key p c); nr = y.nr + 1 })
    again-Turn a b c x y t = record {
      pair_x = t.pair_x;
      pair_y = t.pair_y;
      reads = t.reads;
      unread = t.unread;
      linked = t.linked;
      chain = refl;
      count = omega (arith, t.count);
      old_count = t.old_count;
      root_x = t.root_x;
      root_y = t.root_y;
      chain_y = t.chain_y;
      has_root_x = t.has_root_x;
      has_root_y = t.has_root_y;
      agreed = t.agreed;
      no_skipped_x = t.no_skipped_x;
      no_skipped_y = t.no_skipped_y;
      unsent = t.unsent;
      has_chain_y = t.has_chain_y;
    }

    send_answer :
        (a b : Bytes) (x y : State) (m : Letter) (t : Turn a b x y)
        → send y x m ≡ (
          record y { cks = some (next_chain_key p t.chain_y); ns = 1 },
          turned a t.root_x m.secret (p.get_public_key b) x,
          ok m.plaintext,
        )
    unfolding send
    send_answer a b x y m t = ground (
      arith,
      encrypt_with t.chain_y m.nonce m.plaintext m.ad (key_pair p b) y t.has_chain_y t.pair_y,
      decrypt_new a (p.get_public_key b) t.root_x m.secret m.nonce
          (p.encrypt (message_key p t.chain_y) m.nonce m.ad m.plaintext) m.ad x t.pair_x
          t.has_root_x t.unread t.linked t.no_skipped_x,
      opened (message_key p t.chain_y) m.nonce m.ad m.plaintext,
    )

    answer-Turn :
        (a b secret : Bytes) (x y : State) (t : Turn a b x y)
        → p.get_public_key secret ≢ p.get_public_key a
        → Turn b secret
            (record y { cks = some (next_chain_key p t.chain_y); ns = 1 })
            (turned a t.root_x secret (p.get_public_key b) x)
    unfolding ratchet_with
    answer-Turn a b secret x y t new =
        let next = kdf_rk p t.root_y (p.get_shared_secret secret (p.get_public_key b)) in
        record {
          pair_x = t.pair_y;
          pair_y = refl;
          reads = refl;
          unread = λ e. ground (arith, t.reads);
          linked = λ e. ground (arith, t.reads);
          chain = ground (arith, t.agreed);
          count = refl;
          old_count = t.count;
          root_x = t.root_y;
          root_y = next.0;
          chain_y = next.1;
          has_root_x = t.has_root_y;
          has_root_y = ground (arith, t.agreed);
          agreed = ground (arith, laws.shared_comm b secret);
          no_skipped_x = t.no_skipped_y;
          no_skipped_y = t.no_skipped_x;
          unsent = refl;
          has_chain_y = ground (arith, t.agreed);
        }

    converse_from :
        (a b c : Bytes) (x y : State) (ms : List (Bool × Letter))
        → Turn a b x y
        → x.cks ≡ some c
        → AllFresh a b ms
        → converse x y ms ≡ map (λ m. ok m.1.plaintext) ms
    unfolding converse
    converse_from a b c x y [] t sending fresh = refl
    converse_from a b c x y ((true, m) ∷ ms) t sending fresh =
        rw (send_again a b c x y m t sending) (
          ap (◌∷◌ (ok m.plaintext))
            (converse_from a b (next_chain_key p c) _ _ ms (again-Turn a b c x y t) refl fresh))
    converse_from a b c x y ((false, m) ∷ ms) t sending fresh = rw (send_answer a b x y m t) (
        ap (◌∷◌ (ok m.plaintext)) (
          converse_from b m.secret (next_chain_key p t.chain_y) _ _ ms
            (answer-Turn a b m.secret x y t fresh.0) refl fresh.1))

    start-Turn :
        (a b shared : Bytes)
        → Turn b a
            (init_as_responder p shared (key_pair p b) new_state)
            (init_as_initiator p a shared (p.get_public_key b) new_state)
    unfolding init_as_responder init_as_initiator new_state
    start-Turn a b shared =
        let start = kdf_rk p shared (p.get_shared_secret a (p.get_public_key b)) in
        record {
          pair_x = refl;
          pair_y = refl;
          reads = refl;
          unread = λ e. cc;
          linked = λ e. refl;
          chain = refl;
          count = refl;
          old_count = refl;
          root_x = shared;
          root_y = start.0;
          chain_y = start.1;
          has_root_x = refl;
          has_root_y = refl;
          agreed = ground (arith, laws.shared_comm b a);
          no_skipped_x = refl;
          no_skipped_y = refl;
          unsent = refl;
          has_chain_y = refl;
        }

    -- A conversation between an initiator and a responder that share a secret, where each letter
    -- arrives before the next is written and the initiator writes first: every letter is read as it
    -- was written, whoever writes when, if the key pairs that the ratchets generate are new.
    pub converse-plaintexts :
        (a b shared : Bytes) (m : Letter) (ms : List (Bool × Letter))
        → AllFresh b a ((false, m) ∷ ms)
        → converse
            (init_as_responder p shared (key_pair p b) new_state)
            (init_as_initiator p a shared (p.get_public_key b) new_state)
            ((false, m) ∷ ms)
          ≡ map (λ l. ok l.1.plaintext) ((false, m) ∷ ms)
    unfolding converse
    converse-plaintexts a b shared m ms fresh =
        let t = start-Turn a b shared in
        rw (send_answer b a _ _ m t) (
          ap (◌∷◌ (ok m.plaintext)) (
            converse_from a m.secret (next_chain_key p t.chain_y) _ _ ms
              (answer-Turn b a m.secret _ _ t fresh.0) refl fresh.1))
