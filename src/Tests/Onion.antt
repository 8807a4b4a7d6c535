-- ===== src/Tests/Onion.antt =====
-- src/network/onion-routing.js at concrete inputs. The codec holds two kinds of layers apart by
-- their first number.
use chainmail_protocol.Base.{ℕ, ◌≡◌, refl, List, [], ◌∷◌, codes}
use chainmail_protocol.Network.OnionRouting.{Relay, Salt, exit, build_packet}
use chainmail_protocol.Network.OnionRouting.Journey.{Node, travel, hops, travel-build_packet}
use chainmail_protocol.Tests.Toy.{toy, toy_laws, toy_codec}

abbrev relay_of : ℕ → Relay
relay_of k = record { peer_id = k ∷ []; public_key = k ∷ []; multiaddr = k ∷ []; score = 100 }

abbrev node_of : ℕ → Node
node_of k = record {
  router = record { private_key = k ∷ []; circuits = [] };
  from = [];
  fresh = [];
  now = 7;
}

abbrev salt : Salt
salt = record { secret = 3 ∷ []; nonce = [] }

abbrev route : List (Relay × Salt)
route = (relay_of 1, salt) ∷ (relay_of 2, salt) ∷ []

travel-build_packet_example :
    travel toy toy_codec
      (node_of 1 ∷ node_of 2 ∷ [])
      (node_of 9)
      (build_packet toy toy_codec (70 ∷ []) (codes "dm1x") (9 ∷ []) salt route (codes "c") 5)
    ≡ (hops toy toy_codec (codes "dm1x") route, exit (codes "dm1x") (70 ∷ []))
travel-build_packet_example =
    travel-build_packet toy toy_codec toy_laws (codes "dm1x") (codes "c") (70 ∷ []) 5 salt
      (node_of 1 ∷ node_of 2 ∷ []) (node_of 9) route (refl, (refl, tt))
