-- ===== src/Crypto/DoubleRatchet.antt =====
-- src/crypto/double-ratchet.js. Random keys and nonces are arguments. The source stores a skipped key
-- under the text `<base64 of the public key>:<number>`; here the key and the number are a pair, and
-- header, nonce and ciphertext travel as bytes instead of base64 text. An operation returns the
-- changed state also where it throws.
pub mod Chain
pub mod Delivery
pub mod Conversation
pub mod Sessions
use chainmail_protocol.Base.{
  ℕ, zero, suc, ◌+◌, ◌-◌, ◌≡◌, Bool, true, false, Option, none, some, [], ltb, if◌then◌else◌, Bytes,
  codes, take, drop, text_discrete, ℕ_discrete, holds,
}
use chainmail_protocol.Base.Dict.{Dict, Key, get, set, delete}
use chainmail_protocol.Crypto.{Primitives}

abbrev pub max_skip : ℕ
max_skip = 100

unfoldable pub skip_discrete : Discrete (Bytes × ℕ)
unfolding text_discrete ℕ_discrete
skip_discrete = hlevel (text_discrete, ℕ_discrete)

instance abbrev pub skip_key : Key (Bytes × ℕ)
skip_key = record { dec = skip_discrete }

pub record KeyPair : Type 0 where
  pub private_key : Bytes
  pub public_key : Bytes

pub record MessageHeader : Type 0 where
  pub dh : Bytes
  pub pn : ℕ
  pub n : ℕ

pub record Sealed : Type 0 where
  pub header : MessageHeader
  pub nonce : Bytes
  pub ciphertext : Bytes

pub record State : Type 0 where
  pub dhs : Option KeyPair
  pub dhr : Option Bytes
  pub rk : Option Bytes
  pub cks : Option Bytes
  pub ckr : Option Bytes
  pub ns : ℕ
  pub nr : ℕ
  pub pn : ℕ
  pub skipped : Dict (Bytes × ℕ) Bytes

-- `missing_key` stands for a `null` key or key pair that the source hands on to a library or reads
-- a field of.
pub data Error : Type 0 where
  too_many_skipped missing_key bad_ciphertext : Error

pub data Result (A : Type 0) : Type 0 where
  ok : A → Result A
  err : Error → Result A

abbrev pub or_fail : {A : Type 0} → Option A → Error → Result A
or_fail none e = err e
or_fail (some a) e = ok a

unfoldable pub new_state : State
new_state = record {
  dhs = none;
  dhr = none;
  rk = none;
  cks = none;
  ckr = none;
  ns = 0;
  nr = 0;
  pn = 0;
  skipped = [];
}

module _ (p : Primitives) where
  unfoldable pub kdf_rk : Bytes → Bytes → Bytes × Bytes
  kdf_rk root output =
      let okm = p.hkdf output (some root) (codes "dmail-root-key") 64 in
      (take 32 okm, take 32 (drop 32 okm))

  unfoldable pub next_chain_key : Bytes → Bytes
  next_chain_key chain = p.hkdf chain none (codes "dmail-chain-key") 32

  unfoldable pub message_key : Bytes → Bytes
  message_key chain = p.hkdf chain none (codes "dmail-message-key") 32

  abbrev pub key_pair : Bytes → KeyPair
  key_pair secret = record { private_key = secret; public_key = p.get_public_key secret }

  abbrev pub open_with : Bytes → Bytes → Bytes → Bytes → Result Bytes
  open_with key nonce ad ciphertext = or_fail (p.decrypt key nonce ad ciphertext) bad_ciphertext

  -- `secret` is the random private key of `generateKeyPair`.
  unfoldable pub init_as_initiator : Bytes → Bytes → Bytes → State → State
  init_as_initiator secret shared remote s =
      let (root, chain) = kdf_rk shared (p.get_shared_secret secret remote) in
      record s {
        dhs = some (key_pair secret);
        dhr = some remote;
        rk = some root;
        cks = some chain;
        ckr = none;
        ns = 0;
        nr = 0;
        pn = 0;
      }

  unfoldable pub init_as_responder : Bytes → KeyPair → State → State
  init_as_responder shared ours s = record s {
    dhs = some ours;
    dhr = none;
    rk = some shared;
    cks = none;
    ckr = none;
    ns = 0;
    nr = 0;
    pn = 0;
  }

  seal_with : Bytes → KeyPair → Bytes → Bytes → Bytes → State → State × Result Sealed
  seal_with chain pair nonce plaintext ad s = (
    record s { cks = some (next_chain_key chain); ns = s.ns + 1 },
    ok (record {
      header = record { dh = pair.public_key; pn = s.pn; n = s.ns };
      nonce = nonce;
      ciphertext = p.encrypt (message_key chain) nonce ad plaintext;
    }),
  )

  unfoldable pub encrypt : Bytes → Bytes → Bytes → State → State × Result Sealed
  unfolding seal_with
  encrypt nonce plaintext ad s = elim s.cks [
    | none ↦ (s, err missing_key)
    | some chain ↦ elim s.dhs [
      | none ↦ (record s { cks = some (next_chain_key chain) }, err missing_key)
      | some pair ↦ seal_with chain pair nonce plaintext ad s
    ]
  ]

  -- The loop of `skipMessageKeys`, over the number of rounds left: the last chain key, and the map.
  unfoldable pub skip_keys :
      ℕ → Bytes → ℕ → Bytes → Dict (Bytes × ℕ) Bytes → Bytes × Dict (Bytes × ℕ) Bytes
  skip_keys zero remote nr chain m = (chain, m)
  skip_keys (suc rounds) remote nr chain m =
      skip_keys rounds remote (nr + 1) (next_chain_key chain)
        (set (remote, nr) (message_key chain) m)

  -- The chain exists only with a remote key, so the case of a chain without one is not reached.
  unfoldable pub skip_in_chain : Option Bytes → Option Bytes → ℕ → State → State × Result (Unit {0})
  unfolding skip_keys
  skip_in_chain none remote until s = (s, ok tt)
  skip_in_chain (some chain) none until s = (s, err missing_key)
  skip_in_chain (some chain) (some remote) until s =
      let (chain', skipped') = skip_keys (until - s.nr) remote s.nr chain s.skipped in
      (record s { ckr = some chain'; skipped = skipped'; nr = s.nr + (until - s.nr) }, ok tt)

  unfoldable pub skip_message_keys : ℕ → State → State × Result (Unit {0})
  unfolding skip_in_chain
  skip_message_keys until s =
      if ltb (s.nr + max_skip) until
      then (s, err too_many_skipped)
      else skip_in_chain s.ckr s.dhr until s

  unfoldable pub ratchet_with : KeyPair → Bytes → Bytes → Bytes → State → State
  ratchet_with pair root secret theirs s =
      let (rk1, ck1) = kdf_rk root (p.get_shared_secret pair.private_key theirs) in
      let (rk2, ck2) = kdf_rk rk1 (p.get_shared_secret secret theirs) in
      record s { rk = some rk2; ckr = some ck1; cks = some ck2; dhs = some (key_pair secret) }

  unfoldable pub dh_ratchet : Bytes → Bytes → State → State × Result (Unit {0})
  unfolding ratchet_with
  dh_ratchet secret theirs s =
      let s' : State = record s { pn = s.ns; ns = 0; nr = 0; dhr = some theirs } in
      elim s.dhs [
        | none ↦ (s', err missing_key)
        | some pair ↦ elim s.rk [
          | none ↦ (s', err missing_key)
          | some root ↦ (ratchet_with pair root secret theirs s', ok tt)
        ]
      ]

  -- `arraysEqual(header.dhPublicKey, this.state.DHr)`, false without a remote key.
  unfoldable pub is_current : Bytes → Option Bytes → Bool
  is_current theirs none = false
  is_current theirs (some remote) = holds (text_discrete theirs remote)

  abbrev pub then_do :
      {A : Type 0} → State × Result (Unit {0}) → (State → State × Result A) → State × Result A
  then_do r f = elim r.1 [ ok _ ↦ f r.0 | err e ↦ (r.0, err e) ]

  unfoldable pub ratchet_if_new : Bytes → MessageHeader → State → State × Result (Unit {0})
  ratchet_if_new secret h s =
      if is_current h.dh s.dhr
      then (s, ok tt)
      else then_do (skip_message_keys h.pn s) (dh_ratchet secret h.dh)

  unfoldable pub open_next : Bytes → Bytes → Bytes → State → State × Result Bytes
  open_next nonce ciphertext ad s = elim s.ckr [
    | none ↦ (s, err missing_key)
    | some chain ↦ (
      record s { ckr = some (next_chain_key chain); nr = s.nr + 1 },
      open_with (message_key chain) nonce ad ciphertext,
    )
  ]

  unfoldable pub open_in_order : Bytes → Sealed → Bytes → State → State × Result Bytes
  open_in_order secret m ad s =
      then_do (ratchet_if_new secret m.header s)
        (λ s1. then_do (skip_message_keys m.header.n s1) (open_next m.nonce m.ciphertext ad))

  -- `secret` is the private key that the ratchet would generate.
  unfoldable pub decrypt : Bytes → Sealed → Bytes → State → State × Result Bytes
  decrypt secret m ad s = elim (get (m.header.dh, m.header.n) s.skipped) [
    | some key ↦ (
      record s { skipped = delete (m.header.dh, m.header.n) s.skipped },
      open_with key m.nonce ad m.ciphertext,
    )
    | none ↦ open_in_order secret m ad s
  ]
