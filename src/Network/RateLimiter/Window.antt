-- ===== src/Network/RateLimiter/Window.antt =====
-- The sliding window: what `live` keeps, as time passes and as the store is cleaned up.
use chainmail_protocol.Base.{
  ℕ, ◌+◌, ◌≤◌, ◌≡◌, refl, ◌≢◌, List, [], ◌∷◌, ◌++◌, arith, Text, length, ap, length-filter-le,
  dec_lt, ◌∙◌, sym,
}
use chainmail_protocol.Base.Dict.{
  Dict, set, delete, get-set_self, get-set_ne, get-delete_self, get-delete_ne, text_key,
}
use chainmail_protocol.Network.RateLimiter.{live, requests_of, cleanup_sender, cleanup_senders}
use mathlib.Core.List.{filter-append}

live-nil : (w now : ℕ) → live w now [] ≡ []
unfolding live
live-nil w now = refl

pub live-append :
    (w now : ℕ) (xs ys : List ℕ) → live w now (xs ++ ys) ≡ live w now xs ++ live w now ys
unfolding live
live-append w now xs ys = filter-append (λ t. dec_lt now (t + w)) xs ys

-- A timestamp that has left the window stays out of it.
pub live-live :
    (w now later : ℕ) (xs : List ℕ) → now ≤ later → live w later (live w now xs) ≡ live w later xs
unfolding live
live-live w now later [] h = refl
live-live w now later (x ∷ xs) h = ground (arith, live-live w now later xs h)

pub length-live-le : (w now : ℕ) (xs : List ℕ) → length (live w now xs) ≤ length xs
unfolding live
length-live-le w now xs = length-filter-le (λ t. dec_lt now (t + w)) xs

pub length-live_later :
    (w now later : ℕ) (xs : List ℕ)
    → now ≤ later
    → length (live w later xs) ≤ length (live w now xs)
length-live_later w now later xs h =
    omega (arith, ap length (live-live w now later xs h), length-live-le w later (live w now xs))

-- Two logs that agree on the window agree on it later too.
pub live_later :
    (w now later : ℕ) (xs ys : List ℕ)
    → now ≤ later
    → live w now xs ≡ live w now ys
    → live w later xs ≡ live w later ys
live_later w now later xs ys h e =
    sym (live-live w now later xs h) ∙ ap (live w later) e ∙ live-live w now later ys h

pub requests_of-set_self :
    (s : Text) (ts : List ℕ) (m : Dict Text (List ℕ)) → requests_of s (set s ts m) ≡ ts
unfolding requests_of
requests_of-set_self s ts m = ground (arith, get-set_self s ts m)

pub requests_of-set_ne :
    (s r : Text) (ts : List ℕ) (m : Dict Text (List ℕ))
    → r ≢ s
    → requests_of r (set s ts m) ≡ requests_of r m
unfolding requests_of
requests_of-set_ne s r ts m h = ground (arith, get-set_ne s r ts m h)

pub requests_of-delete_ne :
    (s r : Text) (m : Dict Text (List ℕ)) → r ≢ s → requests_of r (delete s m) ≡ requests_of r m
unfolding requests_of
requests_of-delete_ne s r m h = ground (arith, get-delete_ne s r m h)

requests_of-delete_self : (s : Text) (m : Dict Text (List ℕ)) → requests_of s (delete s m) ≡ []
unfolding requests_of
requests_of-delete_self s m = ground (arith, get-delete_self s m)

live-cleanup_self :
    (w now : ℕ) (s : Text) (m : Dict Text (List ℕ))
    → live w now (requests_of s (cleanup_sender w now s m)) ≡ live w now (requests_of s m)
unfolding cleanup_sender
live-cleanup_self w now s m = ground (
  arith,
  requests_of-delete_self s m,
  requests_of-set_self s (live w now (requests_of s m)) m,
  live-nil w now,
  live-live w now now (requests_of s m),
)

live-cleanup_sender :
    (w now : ℕ) (s r : Text) (m : Dict Text (List ℕ))
    → live w now (requests_of r (cleanup_sender w now s m)) ≡ live w now (requests_of r m)
unfolding cleanup_sender
live-cleanup_sender w now s r m = elim (text_key.dec r s) [
  | yes p ↦ rw p (live-cleanup_self w now s m)
  | no p ↦ ground (
    arith,
    requests_of-delete_ne s r m p,
    requests_of-set_ne s r (live w now (requests_of s m)) m p,
  )
]

-- Cleaning up loses nothing of the window.
pub live-cleanup_senders :
    (w now : ℕ) (ss : List Text) (r : Text) (m : Dict Text (List ℕ))
    → live w now (requests_of r (cleanup_senders w now ss m)) ≡ live w now (requests_of r m)
unfolding cleanup_senders
live-cleanup_senders w now [] r m = refl
live-cleanup_senders w now (s ∷ ss) r m =
    live-cleanup_senders w now ss r (cleanup_sender w now s m) ∙ live-cleanup_sender w now s r m
