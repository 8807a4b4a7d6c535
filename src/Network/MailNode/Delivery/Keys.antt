-- ===== src/Network/MailNode/Delivery/Keys.antt =====
-- src/network/node.js: the key that an envelope is stored under, and ids that are missing.
use chainmail_protocol.Base.{
  ℕ, zero, suc, or_else, starts_with, starts_with-append, ◌≤◌, ◌≡◌, ◌≢◌, ap, sym, ◌∙◌, ◌⊎◌, inl,
  inr, true, [], ◌∷◌, ◌++◌, Option, none, some, Text, codes, text_discrete, arith, Bool-cases,
  holds, is_some, false-ne-true,
}
use chainmail_protocol.Base.Database.{none-ne-some}
use chainmail_protocol.Crypto.{Encodings, Primitives}
use chainmail_protocol.Storage.DhtStorage.{message_key, text_or}
use chainmail_protocol.Network.RelayNode.{text_if_any}
use chainmail_protocol.Network.MailNode.{
  Envelope, generate_routing_token, is_sealed, is_for_us, storage_key,
}

pub or_else_ge : (n d b : ℕ) → b ≤ n → b ≤ d → b ≤ or_else (some n) d
or_else_ge zero d b h k = k
or_else_ge (suc n) d b h k = h

pub message_key-starts :
    (key id : Text) → starts_with (message_key key id) (key ++ codes ":") ≡ true
unfolding message_key
message_key-starts key id = starts_with-append (key ++ codes ":") id

pub text_or-ne : (o : Option Text) (d : Text) → d ≢ [] → text_or o d ≢ []
text_or-ne none d h = h
text_or-ne (some []) d h = h
text_or-ne (some (a ∷ t)) d h = λ e. ground arith

pub text_or_cases : (o : Option Text) (d t : Text) → text_or o d ≡ t → (o ≡ some t) ⊎ (d ≡ t)
text_or_cases none d t h = inr h
text_or_cases (some []) d t h = inr h
text_or_cases (some (a ∷ u)) d t h = inl (ap some h)

sealed_key :
    (token key : Text) (o : Option Text)
    → o ≡ some key
    → is_some (text_if_any o) ≡ true
    → holds (text_discrete (text_or o []) token) ≡ true
    → text_if_any (some token) ≡ some key
sealed_key token key none e s h = absurd (none-ne-some key e)
sealed_key token key (some []) e s h = absurd (false-ne-true s)
sealed_key token key (some (a ∷ t)) e s h = elim (text_discrete (a ∷ t) token) [
  | yes q ↦ ap text_if_any (ap some (sym q)) ∙ e
  | no d ↦ ground arith
]

plain_key :
    (address key : Text) (o : Option Text)
    → text_if_any o ≡ some key
    → holds (text_discrete (text_or o []) address) ≡ true
    → text_if_any (some address) ≡ some key
plain_key address key none e h = absurd (none-ne-some key e)
plain_key address key (some []) e h = absurd (none-ne-some key e)
plain_key address key (some (a ∷ t)) e h = elim (text_discrete (a ∷ t) address) [
  | yes q ↦ ap text_if_any (ap some (sym q)) ∙ e
  | no d ↦ ground arith
]

is_sealed-is_some :
    (e : Envelope) → is_sealed e ≡ true → is_some (text_if_any e.routing_token) ≡ true
unfolding is_sealed
is_sealed-is_some e h = elim (text_discrete e.envelope_type (codes "sealed")) [
  | yes q ↦ ground arith
  | no d ↦ ground arith
]

-- The key that an envelope is stored under is one that its recipient asks for.
pub storage_key-lem :
    (p : Primitives) (c : Encodings) (address key : Text) (e : Envelope)
    → is_for_us p c address e ≡ true
    → storage_key e ≡ some key
    → (text_if_any (some address) ≡ some key)
      ⊎ (text_if_any (some (generate_routing_token p c address)) ≡ some key)
unfolding is_for_us storage_key
storage_key-lem p c address key e h k = elim (Bool-cases (is_sealed e)) [
  | inl x ↦ inr (
      sealed_key (generate_routing_token p c address) key e.routing_token (ground (arith, k, x))
        (is_sealed-is_some e x) (ground (arith, h, x)))
  | inr x ↦ inl (plain_key address key e.to (ground (arith, k, x)) (ground (arith, h, x)))
]
