-- ===== src/Network/Reputation/Scores.antt =====
-- src/network/rate-limiter.js, `ReputationRateLimiter`: the scores.
use chainmail_protocol.Base.{ℕ, ◌≤◌, ◌≡◌, some, arith, Text}
use chainmail_protocol.Base.Dict.{get, set, text_key, get-set_self}
use chainmail_protocol.Network.Reputation.{Limiter, report_spam, note}

-- A spam report does not last: whatever a sender's score of at most 25 points was, the report takes
-- it to 0, and the next message that is recorded takes it to 25.1, since a score of 0 is read as no
-- score.
pub note-report_spam :
    (l : Limiter) (s : Text) (now today size score : ℕ)
    → get s l.reputations ≡ some score
    → score ≤ 250
    → (get s (report_spam l s).reputations ≡ some 0)
      × (get s (note (report_spam l s) now today s size).reputations ≡ some 251)
unfolding report_spam note
note-report_spam l s now today size score e h = (
  ground (arith, get-set_self s 0 l.reputations),
  ground (arith, get-set_self s 0 l.reputations, get-set_self s 251 (set s 0 l.reputations)),
)
