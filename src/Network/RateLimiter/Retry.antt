-- ===== src/Network/RateLimiter/Retry.antt =====
-- src/network/rate-limiter.js, the advice `retryAfterMs` of `RateLimiter.check`.
use chainmail_protocol.Base.{
  ℕ, ◌+◌, ◌≤◌, ◌<◌, ◌≡◌, ◌≢◌, List, [], ◌∷◌, Option, some, arith, Text, length,
}
use chainmail_protocol.Network.RateLimiter.{
  RateLimiter, Reason, denied, check, check_sender, live, requests_of, retry_after,
}
use chainmail_protocol.Network.RateLimiter.Window.{length-live_later}

oldest_leaves :
    (w now : ℕ) (xs : List ℕ) (q : ℕ)
    → retry_after w now (live w now xs) ≡ some q
    → (0 < q) × (length (live w (now + q) xs) < length (live w now xs))
unfolding live retry_after
oldest_leaves w now [] q e = absurd (ground arith)
oldest_leaves w now (x ∷ xs) q e =
    ground (arith, oldest_leaves w now xs q, length-live_later w now (now + q) xs)

-- A sender that is turned away for its own limit, whose log holds no more than the limit, is told
-- to wait for a positive time; asking again then, with nothing recorded in between, it is not
-- turned away for its own limit any more.
pub check-retry :
    (l : RateLimiter) (now q : ℕ) (s : Text) (n : Option ℕ)
    → length (live l.window_ms now (requests_of s l.requests)) ≤ l.max_requests
    → (check l now s).1 ≡ denied Reason.sender_limit_exceeded (some q)
    → (0 < q) × ((check (check l now s).0 (now + q) s).1 ≢ denied Reason.sender_limit_exceeded n)
unfolding check check_sender
check-retry l now q s n h e = (
  ground (arith, oldest_leaves l.window_ms now (requests_of s l.requests) q),
  ground (arith, oldest_leaves l.window_ms now (requests_of s l.requests) q),
)
