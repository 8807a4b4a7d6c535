-- ===== src/Network/OnionRouting.antt =====
-- src/network/onion-routing.js. Random keys, nonces and circuit ids are arguments. The text of a
-- layer (`JSON.stringify`, `TextEncoder`) is the parameter `Codec`, with the law that a layer is read
-- back as it was written. Encrypted layers travel as bytes instead of base64 text.
pub mod Selection
pub mod Journey
use chainmail_protocol.Base.{
  ℕ, ◌+◌, ◌-◌, ◌≡◌, ◌≤◌, ◌<◌, Bool, true, false, not, List, [], ◌∷◌, Option, none, some, length,
  leb, ltb, or_else, if◌then◌else◌, Bytes, Text, codes, text_discrete, holds, filter,
}
use chainmail_protocol.Base.Dict.{Dict, get, set, keys, delete_where, text_key}
use chainmail_protocol.Base.Sort.{sort}
use chainmail_protocol.Crypto.{Primitives}

pub record Encrypted : Type 0 where
  pub ephemeral_public_key : Bytes
  pub nonce : Bytes
  pub ciphertext : Bytes

-- `other` stands for a layer whose type is neither `final` nor `relay`.
pub data Layer : Type 0 where
  final : Text → Bytes → Layer
  relay : Text → Option Text → Bool → Encrypted → Layer
  other : Layer

pub record Codec : Type 0 where
  pub to_bytes : Layer → Bytes
  pub of_bytes : Bytes → Option Layer
  pub of_bytes-to_bytes : (l : Layer) → of_bytes (to_bytes l) ≡ some l

pub record Relay : Type 0 where
  pub peer_id : Text
  pub public_key : Bytes
  pub multiaddr : Text
  pub score : ℕ

pub record Packet : Type 0 where
  pub version : ℕ
  pub encrypted_payload : Encrypted
  pub circuit_id : Text
  pub timestamp : ℕ

-- The randomness of one call of `encryptLayer`: the ephemeral private key and the nonce.
pub record Salt : Type 0 where
  pub secret : Bytes
  pub nonce : Bytes

pub record Circuit : Type 0 where
  pub prev_hop : Text
  pub timestamp : ℕ

pub record Router : Type 0 where
  pub private_key : Bytes
  pub circuits : Dict Text Circuit

pub data Outcome : Type 0 where
  exit : Text → Bytes → Outcome
  forward : Text → Option Text → Bool → Packet → Outcome
  failed : Outcome

module _ (p : Primitives) where
  unfoldable pub layer_key : Bytes → Bytes
  layer_key shared = p.hkdf shared none (codes "dmail-onion-v1") 32

  unfoldable pub encrypt_layer : Salt → Bytes → Bytes → Encrypted
  unfolding layer_key
  encrypt_layer salt plaintext recipient = record {
    ephemeral_public_key = p.get_public_key salt.secret;
    nonce = salt.nonce;
    ciphertext =
        p.encrypt (layer_key (p.get_shared_secret salt.secret recipient)) salt.nonce [] plaintext;
  }

  unfoldable pub decrypt_layer : Encrypted → Bytes → Option Bytes
  unfolding layer_key
  decrypt_layer e private_key =
      p.decrypt (layer_key (p.get_shared_secret private_key e.ephemeral_public_key)) e.nonce []
        e.ciphertext

  module _ (c : Codec) where
    abbrev pub next_address : Text → List (Relay × Salt) → Text
    next_address destination [] = destination
    next_address destination ((r, s) ∷ rs) = r.multiaddr

    abbrev pub next_peer : List (Relay × Salt) → Option Text
    next_peer [] = none
    next_peer ((r, s) ∷ rs) = some r.peer_id

    abbrev pub is_last : List (Relay × Salt) → Bool
    is_last [] = true
    is_last (r ∷ rs) = false

    -- The loop of `buildRoute` from the exit to the entry: the layers of the relays, around `inner`.
    unfoldable pub wrap : Text → Encrypted → List (Relay × Salt) → Encrypted
    unfolding encrypt_layer
    wrap destination inner [] = inner
    wrap destination inner ((r, salt) ∷ rs) =
        encrypt_layer salt
          (c.to_bytes (
            relay (next_address destination rs) (next_peer rs) (is_last rs)
              (wrap destination inner rs)))
          r.public_key

    -- `buildRoute` for relays that are selected already.
    unfoldable pub build_packet :
        Bytes → Text → Bytes → Salt → List (Relay × Salt) → Text → ℕ → Packet
    unfolding wrap
    build_packet message destination destination_key salt relays circuit now = record {
      version = 1;
      encrypted_payload =
          wrap destination
            (encrypt_layer salt (c.to_bytes (final destination message)) destination_key) relays;
      circuit_id = circuit;
      timestamp = now;
    }

    abbrev track : Router → Text → Packet → ℕ → Router
    track r from packet now = record r {
      circuits = set packet.circuit_id (record { prev_hop = from; timestamp = now }) r.circuits;
    }

    -- `options.circuitId || ...`, `options.timestamp || ...` of the packet's constructor.
    abbrev pub or_fresh : Text → Text → Text
    or_fresh [] fresh = fresh
    or_fresh (x ∷ xs) fresh = x ∷ xs

    unfoldable pub act_on : Layer → Packet → Text → ℕ → Outcome
    act_on (final destination message) packet fresh now = exit destination message
    act_on (relay hop peer is_exit payload) packet fresh now = forward hop peer is_exit (record {
      version = 1;
      encrypted_payload = payload;
      circuit_id = or_fresh packet.circuit_id fresh;
      timestamp = or_else (some packet.timestamp) now;
    })
    act_on other packet fresh now = failed

    unfoldable pub read_layer : Packet → Bytes → Option Layer
    unfolding decrypt_layer
    read_layer packet private_key = elim (decrypt_layer packet.encrypted_payload private_key) [
      | none ↦ none
      | some bytes ↦ c.of_bytes bytes
    ]

    -- `fresh` is the circuit id that a packet with an empty one would get.
    unfoldable pub process_packet : Router → Packet → Text → Text → ℕ → Router × Outcome
    unfolding read_layer act_on
    process_packet r packet from fresh now = elim (read_layer packet r.private_key) [
      | none ↦ (r, failed)
      | some layer ↦ (track r from packet now, act_on layer packet fresh now)
    ]

abbrev pub max_age : ℕ
max_age = 600000

abbrev pub is_old : ℕ → Circuit → Bool
is_old now c = ltb (c.timestamp + max_age) now

unfoldable pub cleanup_circuits : Router → ℕ → Router
unfolding delete_where
cleanup_circuits r now = record r {
  circuits = delete_where (is_old now) (keys r.circuits) r.circuits;
}

unfoldable pub register_relay : Relay → Dict Text Relay → Dict Text Relay
register_relay r known = set r.peer_id r known

abbrev pub includes : List Text → Text → Bool
includes [] x = false
includes (y ∷ ys) x = if holds (text_discrete x y) then true else includes ys x

abbrev pub by_score : Relay → Relay → Bool
by_score a b = leb b.score a.score

unfoldable pub keep_allowed : List Text → List Relay → List Relay
keep_allowed excluded [] = []
keep_allowed excluded (r ∷ rs) =
    if includes excluded r.peer_id then keep_allowed excluded rs else r ∷ keep_allowed excluded rs

abbrev pub values : Dict Text Relay → List Relay
values [] = []
values ((k, r) ∷ m) = r ∷ values m

abbrev pub total_score : List Relay → ℕ
total_score [] = 0
total_score (r ∷ rs) = r.score + total_score rs

-- The inner loop: the first relay at which the draw is used up, and the others.
unfoldable pub pick : ℕ → List Relay → Option (Relay × List Relay)
pick draw [] = none
pick draw (r ∷ rs) =
    if leb draw r.score
    then some (r, rs)
    else elim (pick (draw - r.score) rs) [ none ↦ none | some (x, others) ↦ some (x, r ∷ others) ]

-- The outer loop. A draw is `Math.random() * totalScore` as a function of the total, rounded up,
-- which is the same test against whole scores. A round that picks nothing is passed over.
unfoldable pub select : List (ℕ → ℕ) → List Relay → List Relay
unfolding pick
select [] remaining = []
select (draw ∷ draws) remaining = elim (pick (draw (total_score remaining)) remaining) [
  | none ↦ select draws remaining
  | some (r, others) ↦ r ∷ select draws others
]

-- `none` is the error `Not enough relays available`; there is one draw for each hop.
unfoldable pub select_relays : List (ℕ → ℕ) → List Text → Dict Text Relay → Option (List Relay)
unfolding keep_allowed sort select
select_relays draws excluded known =
    let available = sort by_score (keep_allowed excluded (values known)) in
    if ltb (length available) (length draws) then none else some (select draws available)
