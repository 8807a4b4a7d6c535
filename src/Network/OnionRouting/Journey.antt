-- ===== src/Network/OnionRouting/Journey.antt =====
-- src/network/onion-routing.js: a packet on its way through the relays of its route.
use chainmail_protocol.Base.{
  ℕ, ◌≡◌, refl, ap, Bool, List, [], ◌∷◌, Option, some, arith, Bytes, Text, or_else,
}
use chainmail_protocol.Base.Dict.{text_key}
use chainmail_protocol.Crypto.{Primitives, Laws}
use chainmail_protocol.Network.OnionRouting.{
  Layer, final, relay, Codec, Relay, Packet, Salt, Router, Outcome, exit, forward, failed,
  layer_key, encrypt_layer, decrypt_layer, next_address, next_peer, is_last, wrap, build_packet,
  or_fresh, act_on, read_layer, process_packet,
}

-- What a relay learns of the route: the next address, the next peer, whether it is the exit.
pub record Hop : Type 0 where
  pub address : Text
  pub peer : Option Text
  pub is_exit : Bool

-- A node on the way: its router, what it calls the node before it, and its clock.
pub record Node : Type 0 where
  pub router : Router
  pub from : Text
  pub fresh : Text
  pub now : ℕ

module _ (p : Primitives) (c : Codec) where
  abbrev process : Node → Packet → Router × Outcome
  process n packet = process_packet p c n.router packet n.from n.fresh n.now

  abbrev add_hop : Hop → List Hop × Outcome → List Hop × Outcome
  add_hop h (hs, o) = (h ∷ hs, o)

  -- The packet goes from node to node as long as each forwards it, and at last to the recipient.
  unfoldable pub travel : List Node → Node → Packet → List Hop × Outcome
  travel [] recipient packet = ([], (process recipient packet).1)
  travel (n ∷ ns) recipient packet = elim (process n packet).1 [
    | exit destination message ↦ ([], exit destination message)
    | forward address peer is_exit packet' ↦
        add_hop (record { address = address; peer = peer; is_exit = is_exit })
          (travel ns recipient packet')
    | failed ↦ ([], failed)
  ]

  unfoldable pub hops : Text → List (Relay × Salt) → List Hop
  hops destination [] = []
  hops destination ((r, s) ∷ rs) =
      record {
        address = next_address p c destination rs;
        peer = next_peer p c rs;
        is_exit = is_last p c rs;
      }
      ∷ hops destination rs

  -- The nodes hold the private keys of the relays, in their order.
  abbrev pub Match : List Node → List (Relay × Salt) → Type 0
  Match [] [] = Unit
  Match (n ∷ ns) ((r, s) ∷ rs) =
      (r.public_key ≡ p.get_public_key n.router.private_key) × Match ns rs
  Match _ _ = ⊥

  module _ (laws : Laws p) where
    -- A layer is read by the holder of the private key that it was encrypted for.
    read_layer-encrypt_layer :
        (salt : Salt) (l : Layer) (key : Bytes) (packet : Packet)
        → packet.encrypted_payload ≡ encrypt_layer p salt (c.to_bytes l) (p.get_public_key key)
        → read_layer p c packet key ≡ some l
    unfolding read_layer decrypt_layer encrypt_layer
    read_layer-encrypt_layer salt l key packet e = ground (
      arith,
      laws.shared_comm key salt.secret,
      laws.decrypt-encrypt (layer_key p (p.get_shared_secret salt.secret (p.get_public_key key)))
          salt.nonce [] (c.to_bytes l),
      c.of_bytes-to_bytes l,
    )

    process-layer :
        (salt : Salt) (l : Layer) (n : Node) (packet : Packet)
        → packet.encrypted_payload
          ≡ encrypt_layer p salt (c.to_bytes l) (p.get_public_key n.router.private_key)
        → (process n packet).1 ≡ act_on p c l packet n.fresh n.now
    unfolding process_packet
    process-layer salt l n packet e =
        ground (arith, read_layer-encrypt_layer salt l n.router.private_key packet e)

    travel-wrap :
        (destination : Text) (message : Bytes) (salt : Salt) (ns : List Node) (recipient : Node)
        (rs : List (Relay × Salt)) (packet : Packet)
        → Match ns rs
        → packet.encrypted_payload
          ≡ wrap p c destination
              (encrypt_layer p salt
                (c.to_bytes (final destination message))
                (p.get_public_key recipient.router.private_key))
              rs
        → travel ns recipient packet ≡ (hops destination rs, exit destination message)
    unfolding travel hops wrap act_on
    travel-wrap destination message salt [] recipient [] packet h e =
        ground (arith, process-layer salt (final destination message) recipient packet e)
    travel-wrap destination message salt (n ∷ ns) recipient ((r, s) ∷ rs) packet h e =
        let inner =
          wrap p c destination
            (encrypt_layer p salt (c.to_bytes (final destination message))
              (p.get_public_key recipient.router.private_key))
            rs in
        let l = relay (next_address p c destination rs) (next_peer p c rs) (is_last p c rs) inner in
        let step = process-layer s l n packet (rw (← h.0) e) in
        let packet' : Packet = record {
          version = 1;
          encrypted_payload = inner;
          circuit_id = or_fresh p c packet.circuit_id n.fresh;
          timestamp = or_else (some packet.timestamp) n.now;
        } in
        let rest = travel-wrap destination message salt ns recipient rs packet' h.1 refl in
        rw (step, travel)
          (ap
            (add_hop (record {
              address = next_address p c destination rs;
              peer = next_peer p c rs;
              is_exit = is_last p c rs;
            }))
            rest)
    travel-wrap destination message salt [] recipient (r ∷ rs) packet h e = absurd h
    travel-wrap destination message salt (n ∷ ns) recipient [] packet h e = absurd h

    -- A packet that is built for a route reaches its recipient: each relay of the route, in order,
    -- forwards it with no more than the address and the peer id of the relay after it, the last one
    -- with the destination and marked as the exit, and the recipient reads the message.
    pub travel-build_packet :
        (destination circuit : Text) (message : Bytes) (now : ℕ) (salt : Salt) (ns : List Node)
        (recipient : Node) (rs : List (Relay × Salt))
        → Match ns rs
        → travel ns recipient (
            build_packet p c message destination
              (p.get_public_key recipient.router.private_key)
              salt
              rs
              circuit
              now)
          ≡ (hops destination rs, exit destination message)
    unfolding build_packet
    travel-build_packet destination circuit message now salt ns recipient rs h =
        travel-wrap destination message salt ns recipient rs _ h refl
