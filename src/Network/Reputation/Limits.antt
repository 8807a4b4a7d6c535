-- ===== src/Network/Reputation/Limits.antt =====
-- src/network/rate-limiter.js, `ReputationRateLimiter`: what it limits, and what it does not.
use chainmail_protocol.Base.{
  ℕ, ◌*◌, ◌/◌, ◌≤◌, ◌<◌, ◌≡◌, ◌≢◌, refl, [], ◌∷◌, ◌++◌, arith, Text, length, length-append, Option,
}
use chainmail_protocol.Base.Dict.{text_key}
use chainmail_protocol.Network.RateLimiter.{
  RateLimiter, Reason, Verdict, allowed, denied, live, requests_of, get_rate, retry_after,
}
use chainmail_protocol.Network.RateLimiter
use chainmail_protocol.Network.RateLimiter.Window.{
  live-append, length-live-le, length-live_later, requests_of-set_self, requests_of-set_ne,
}
use chainmail_protocol.Network.Reputation.{
  Limiter, thresholds, multiplier_from, reputation_of, get_adjusted_limit, check, check_rate,
  check_sizes, check_and_record, note,
}

multiplier_le : (score : ℕ) → multiplier_from 1 thresholds score ≤ 6
unfolding multiplier_from
multiplier_le score = ground arith

multiplier_mono :
    (a b : ℕ) → a ≤ b → multiplier_from 1 thresholds a ≤ multiplier_from 1 thresholds b
unfolding multiplier_from
multiplier_mono a b h = ground arith

multiplier_pos : (score : ℕ) → 1 ≤ multiplier_from 1 thresholds score
unfolding multiplier_from
multiplier_pos score = ground arith

halves_mono :
    {x y j k : ℕ}
    → x ≡ y
    → 1 ≤ j
    → j ≤ k
    → j ≤ 6
    → ((x * j) / 2 ≤ (y * k) / 2) × (x / 2 ≤ (x * j) / 2) × ((x * j) / 2 ≤ 3 * x)
halves_mono {x} {y} {j} {k} e one le six =
    let low : x * 1 ≤ x * j = grind arith in
    let mid : x * j ≤ x * k = grind arith in
    let high : x * j ≤ x * 6 = grind arith in (rw (← e) (omega arith), omega arith, omega arith)

-- A higher score never lowers the limit of a sender, which stays between half the base limit and
-- three times the base limit.
pub get_adjusted_limit_mono :
    (l m : Limiter) (s r : Text)
    → l.base.max_requests ≡ m.base.max_requests
    → reputation_of l s ≤ reputation_of m r
    → (get_adjusted_limit l s ≤ get_adjusted_limit m r)
      × (l.base.max_requests / 2 ≤ get_adjusted_limit l s)
      × (get_adjusted_limit l s ≤ 3 * l.base.max_requests)
unfolding get_adjusted_limit
get_adjusted_limit_mono l m s r e h =
    halves_mono e (multiplier_pos (reputation_of l s)) (multiplier_mono _ _ h)
      (multiplier_le (reputation_of l s))

-- At most three times the base limit of messages of each sender are in the window.
abbrev pub IsCapped : Limiter → ℕ → Type 0
IsCapped l now =
    (s : Text)
    → length (live l.base.window_ms now (requests_of s l.base.requests)) ≤ 3 * l.base.max_requests

capped_self :
    (l : Limiter) (now later today : ℕ) (s : Text) (size : ℕ)
    → now ≤ later
    → length (live l.base.window_ms now (requests_of s l.base.requests)) ≤ 3 * l.base.max_requests
    → let b = (check_and_record l now today s size).0.base in
      length (live b.window_ms later (requests_of s b.requests)) ≤ 3 * b.max_requests
unfolding check_and_record check check_rate get_rate note
capped_self l now later today s size le h = ground (
  arith,
  requests_of-set_self s (requests_of s l.base.requests ++ now ∷ []) l.base.requests,
  live-append l.base.window_ms later (requests_of s l.base.requests) (now ∷ []),
  length-append (live l.base.window_ms later (requests_of s l.base.requests))
      (live l.base.window_ms later (now ∷ [])),
  length-live-le l.base.window_ms later (now ∷ []),
  length-live_later l.base.window_ms now later (requests_of s l.base.requests),
  (get_adjusted_limit_mono l l s s refl (omega arith)).2,
)

capped_other :
    (l : Limiter) (now later today : ℕ) (s r : Text) (size : ℕ)
    → now ≤ later
    → r ≢ s
    → length (live l.base.window_ms now (requests_of r l.base.requests)) ≤ 3 * l.base.max_requests
    → let b = (check_and_record l now today s size).0.base in
      length (live b.window_ms later (requests_of r b.requests)) ≤ 3 * b.max_requests
unfolding check_and_record check check_rate get_rate note
capped_other l now later today s r size le d h = ground (
  arith,
  requests_of-set_ne s r (requests_of s l.base.requests ++ now ∷ []) l.base.requests d,
  length-live_later l.base.window_ms now later (requests_of r l.base.requests),
)

-- A message that is checked, and recorded if it is allowed, leaves every sender with at most three
-- times the base limit of messages in the window, then and at every later time.
pub check_and_record-IsCapped :
    (l : Limiter) (now later today : ℕ) (s : Text) (size : ℕ)
    → now ≤ later
    → IsCapped l now
    → IsCapped (check_and_record l now today s size).0 later
check_and_record-IsCapped l now later today s size le h r = elim (text_key.dec r s) [
  | yes e ↦ rw e (capped_self l now later today s size le (h s))
  | no d ↦ capped_other l now later today s r size le d (h r)
]

-- The global limit is not applied: with as many messages in the window as the global limit allows,
-- the base limiter turns every sender away, and this limiter lets a message through for a sender
-- with none in the window.
pub check-ignores_global :
    (l : Limiter) (now today : ℕ) (s : Text)
    → l.base.global_max_requests ≤ length (live l.base.window_ms now l.base.global_requests)
    → live l.base.window_ms now (requests_of s l.base.requests) ≡ []
    → 2 ≤ l.base.max_requests
    → ((n : Option ℕ) × ((RateLimiter.check l.base now s).1
          ≡ denied Reason.global_limit_exceeded n))
      × (check l now today s 0 ≡ allowed)
unfolding check check_rate check_sizes get_rate RateLimiter.check
check-ignores_global l now today s full none_yet h = (
  (
    retry_after l.base.window_ms now (live l.base.window_ms now l.base.global_requests),
    ground arith,
  ),
  ground (arith, limit_pos),
)
  where
    limit_pos : 0 < get_adjusted_limit l s
    limit_pos = let b = (get_adjusted_limit_mono l l s s refl (omega arith)).1 in omega (arith, b)
