-- ===== src/Tests/Toy.antt =====
-- Concrete functions in the place of the cryptographic libraries: a public key is its private key,
-- a shared secret the sum of both keys, and a ciphertext the key before the plaintext.
use Prim.Native.Nat.{ℕ, zero, suc, ◌+◌}
use chainmail_protocol.Base.{
  ◌≡◌, refl, ap, ◌∙◌, List, [], ◌∷◌, ◌++◌, true, false, Bool, Text, take, take-length-append, none,
  some, Option, Bytes, drop, length, starts_with, starts_with-append, drop-length-append,
  if◌then◌else◌, arith,
}
use chainmail_protocol.Crypto.{Primitives, Laws, Encodings, EncodingLaws}
use chainmail_protocol.Network.OnionRouting.{Layer, Encrypted, Codec, final, relay, other}

abbrev pub sums : Bytes → Bytes → Bytes
sums [] ys = ys
sums (x ∷ xs) [] = x ∷ xs
sums (x ∷ xs) (y ∷ ys) = (x + y) ∷ sums xs ys

pub sums_comm : (xs ys : Bytes) → sums xs ys ≡ sums ys xs
sums_comm [] [] = refl
sums_comm [] (y ∷ ys) = refl
sums_comm (x ∷ xs) [] = refl
sums_comm (x ∷ xs) (y ∷ ys) = ground (arith, sums_comm xs ys)

abbrev pub toy : Primitives
toy = record {
  get_public_key = λ a. a;
  get_shared_secret = sums;
  hkdf = λ ikm salt info n. info ++ ikm;
  encrypt = λ key nonce ad m. key ++ m;
  decrypt = λ key nonce ad c. if starts_with c key then some (drop (length key) c) else none;
}

pub toy_opens :
    (key nonce ad m : Bytes) → toy.decrypt key nonce ad (toy.encrypt key nonce ad m) ≡ some m
toy_opens key nonce ad m = rw (starts_with-append key m) (rw (drop-length-append key m) refl)

abbrev pub toy_laws : Laws toy
toy_laws = record { shared_comm = sums_comm; decrypt-encrypt = toy_opens }

-- Encodings that change nothing.
abbrev pub plain : Encodings
plain = record {
  sha256 = λ b. b;
  hex = λ b. b;
  to_base64 = λ b. b;
  from_base64 = λ t. t;
  from_hex = λ t. t;
  utf8 = λ t. t;
  from_utf8 = λ b. b;
  digits = λ n. n ∷ [];
}

abbrev pub plain_laws : EncodingLaws plain
plain_laws = record {
  from_hex-hex = λ b. refl;
  from_base64-to_base64 = λ b. refl;
  from_utf8-utf8 = λ t. refl;
}

-- A list behind its length.
abbrev pub framed : List ℕ → List ℕ
framed xs = length xs ∷ xs

abbrev pub framed_then : List ℕ → (List ℕ → List ℕ → Option Layer) → Option Layer
framed_then [] f = none
framed_then (n ∷ xs) f = f (take n xs) (drop n xs)

framed_then-framed :
    (xs ys : List ℕ) (f : List ℕ → List ℕ → Option Layer)
    → framed_then (framed xs ++ ys) f ≡ f xs ys
framed_then-framed xs ys f = rw (take-length-append xs ys) (rw (drop-length-append xs ys) refl)

abbrev pub bool_code : Bool → ℕ
bool_code true = 1
bool_code false = 0

abbrev pub peer_code : Option Text → List ℕ
peer_code none = 0 ∷ []
peer_code (some t) = 1 ∷ framed t

abbrev pub encode : Layer → Bytes
encode other = []
encode (final d m) = 0 ∷ (framed d ++ m)
encode (relay hop peer is_exit e) =
    1
    ∷ (bool_code is_exit ∷ framed hop
        ++ (peer_code peer ++ (framed e.ephemeral_public_key ++ (framed e.nonce ++ e.ciphertext))))

abbrev pub code_bool : ℕ → Bool
code_bool zero = false
code_bool (suc k) = true

code_bool-bool_code : (b : Bool) → code_bool (bool_code b) ≡ b
code_bool-bool_code true = refl
code_bool-bool_code false = refl

abbrev pub peer_then : List ℕ → (Option Text → List ℕ → Option Layer) → Option Layer
peer_then [] f = none
peer_then (zero ∷ xs) f = f none xs
peer_then (suc k ∷ xs) f = framed_then xs (λ t. f (some t))

peer_then-peer_code :
    (o : Option Text) (ys : List ℕ) (f : Option Text → List ℕ → Option Layer)
    → peer_then (peer_code o ++ ys) f ≡ f o ys
peer_then-peer_code none ys f = refl
peer_then-peer_code (some t) ys f = framed_then-framed t ys (λ t. f (some t))

abbrev pub encrypted_then : List ℕ → (Encrypted → Option Layer) → Option Layer
encrypted_then xs f = framed_then xs (λ e r.
    framed_then r (λ n c. f (record { ephemeral_public_key = e; nonce = n; ciphertext = c })))

encrypted_then-framed :
    (e n c : Bytes) (f : Encrypted → Option Layer)
    → encrypted_then (framed e ++ (framed n ++ c)) f
      ≡ f (record { ephemeral_public_key = e; nonce = n; ciphertext = c })
encrypted_then-framed e n c f =
    framed_then-framed e (framed n ++ c) (λ e r.
      framed_then r (λ n c. f (record { ephemeral_public_key = e; nonce = n; ciphertext = c })))
    ∙ framed_then-framed n c
        (λ n c. f (record { ephemeral_public_key = e; nonce = n; ciphertext = c }))

abbrev pub decode : Bytes → Option Layer
decode [] = some other
decode (zero ∷ xs) = framed_then xs (λ d m. some (final d m))
decode (suc k ∷ []) = none
decode (suc k ∷ (b ∷ xs)) =
    framed_then xs (λ hop r.
      peer_then r (λ peer r. encrypted_then r (λ e. some (relay hop peer (code_bool b) e))))

pub decode-encode : (l : Layer) → decode (encode l) ≡ some l
decode-encode other = refl
decode-encode (final d m) = framed_then-framed d m (λ d m. some (final d m))
decode-encode (relay hop peer b e) =
    framed_then-framed hop
      (peer_code peer ++ (framed e.ephemeral_public_key ++ (framed e.nonce ++ e.ciphertext)))
      (λ hop r.
        peer_then r
          (λ peer r. encrypted_then r (λ e. some (relay hop peer (code_bool (bool_code b)) e))))
    ∙ peer_then-peer_code peer (framed e.ephemeral_public_key ++ (framed e.nonce ++ e.ciphertext))
        (λ peer r. encrypted_then r (λ e. some (relay hop peer (code_bool (bool_code b)) e)))
    ∙ encrypted_then-framed e.ephemeral_public_key e.nonce e.ciphertext
        (λ e. some (relay hop peer (code_bool (bool_code b)) e))
    ∙ ap (λ b. some (relay hop peer b e)) (code_bool-bool_code b)

abbrev pub toy_codec : Codec
toy_codec = record { to_bytes = encode; of_bytes = decode; of_bytes-to_bytes = decode-encode }
