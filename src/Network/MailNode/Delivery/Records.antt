-- ===== src/Network/MailNode/Delivery/Records.antt =====
-- src/network/node.js: the records that a node takes from the answer of a relay.
use chainmail_protocol.Base.{
  ◌≡◌, refl, ap, ◌++◌, Option, none, Text, sym, subst, inl, inr, Bool, true, List, [], ◌∷◌, some,
  All, map,
}
use chainmail_protocol.Base.Dict.{In}
use chainmail_protocol.Crypto.{Encodings}
use chainmail_protocol.Storage.DhtStorage.{Json, MessageRecord, to_json}
use chainmail_protocol.Network.RelayNode.{Response, found}
use chainmail_protocol.Network.MailNode.{
  or_legacy, fetch_messages_from_peer, Envelope, Format, Fetched, read_data, push, collect_dht,
}

module _ (c : Encodings) (f : Format) (H : Fetched → Type 0) where
  -- The data of the record is an envelope, with what is said of it.
  abbrev pub Reads : MessageRecord → Type 0
  Reads q =
      (e : Envelope) × (read_data c f q.message_data ≡ some e)
      × H (record { id = some q.id; envelope = e })

  -- Every record was taken.
  abbrev Took : List MessageRecord → List Fetched × Bool → Type 0
  Took rs t =
      (t.1 ≡ true)
      × All H t.0
      × ((q : MessageRecord)
          → In q rs
          → (e : Envelope) × (read_data c f q.message_data ≡ some e)
            × In (record { id = some q.id; envelope = e }) t.0)

  pub collect_dht-Took :
      (rs : List MessageRecord)
      → ((q : MessageRecord) → In q rs → Reads q)
      → Took rs (collect_dht c f (map to_json rs))
  unfolding collect_dht to_json
  collect_dht-Took [] h = (refl, tt, (λ q i. absurd i))
  collect_dht-Took (r ∷ rs) h =
      let (e, read, held) = h r (inl refl) in
      let (full, all, there) = collect_dht-Took rs (λ q i. h q (inr i)) in
      subst (λ o. Took (r ∷ rs) (push c f (some r.id) o (collect_dht c f (map to_json rs))))
        (sym read)
        (
          full,
          (held, all),
          (λ q i. elim i [
            | inl x ↦
                subst
                  (λ y.
                    (d : Envelope) × (read_data c f y.message_data ≡ some d)
                    × In (record { id = some y.id; envelope = d })
                        (record { id = some r.id; envelope = e }
                          ∷ (collect_dht c f (map to_json rs)).0))
                  (sym x) (e, read, inl refl)
            | inr j ↦ let (e', read', k) = there q j in (e', read', inr k)
          ]),
        )

module _ (c : Encodings) (f : Format) where
  push-none :
      (id : Option Text) (o : Option Envelope) (s t : List Fetched × Bool)
      → o ≡ none
      → push c f id o s ≡ push c f id o t
  push-none id o s t h = subst (λ x. push c f id x s ≡ push c f id x t) (sym h) refl

  collect_dht-stops :
      (before after after' : List Json) (bad : Json)
      → read_data c f bad.message_data ≡ none
      → collect_dht c f (before ++ bad ∷ after) ≡ collect_dht c f (before ++ bad ∷ after')
  unfolding collect_dht
  collect_dht-stops [] after after' bad h =
      push-none bad.id (read_data c f bad.message_data) (collect_dht c f after)
        (collect_dht c f after') h
  collect_dht-stops (r ∷ before) after after' bad h =
      ap (push c f r.id (read_data c f r.message_data))
        (collect_dht-stops before after after' bad h)

  -- Of the records that a peer answers with, those behind one that is no JSON are lost: whatever they
  -- are, the same messages are taken.
  pub fetch_messages_from_peer-stops :
      (before after after' : List Json) (bad : Json) (legacy : Option Response)
      → read_data c f bad.message_data ≡ none
      → fetch_messages_from_peer c f
          (record { dht = some (found (before ++ bad ∷ after)); legacy = legacy })
        ≡ fetch_messages_from_peer c f
            (record { dht = some (found (before ++ bad ∷ after')); legacy = legacy })
  unfolding fetch_messages_from_peer
  fetch_messages_from_peer-stops before after after' bad legacy h =
      ap (or_legacy c f legacy) (collect_dht-stops before after after' bad h)
