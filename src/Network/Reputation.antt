-- ===== src/Network/Reputation.antt =====
-- src/network/rate-limiter.js, the class `ReputationRateLimiter`. Scores are counted in tenths of a
-- point, since they move by 0.1 and 25, and the multipliers of the limit in halves: the source's
-- floating-point sums are taken to be exact.
pub mod Limits
pub mod Scores
use chainmail_protocol.Base.{
  ℕ, ◌+◌, ◌-◌, ◌*◌, ◌/◌, List, [], ◌∷◌, Option, none, some, leb, ltb, or_else, if◌then◌else◌, Text,
  min,
}
use chainmail_protocol.Base.Dict.{Dict, get, set, text_key}
use chainmail_protocol.Network.RateLimiter.{RateLimiter, Reason, Verdict, allowed, denied, get_rate}
use chainmail_protocol.Network.RateLimiter
use chainmail_protocol.Network.SizeLimiter.{SizeLimiter, record_storage}
use chainmail_protocol.Network.SizeLimiter
use mathlib.Core.Option

pub record Limiter : Type 0 where
  pub base : RateLimiter
  pub sizes : SizeLimiter
  pub reputations : Dict Text ℕ

-- `Object.entries(this.thresholds)`: tenths of a point, and halves of the base limit.
abbrev pub thresholds : List (ℕ × ℕ)
thresholds = (0, 1) ∷ (250, 2) ∷ (500, 3) ∷ (750, 4) ∷ (1000, 6) ∷ []

unfoldable pub multiplier_from : ℕ → List (ℕ × ℕ) → ℕ → ℕ
multiplier_from m [] score = m
multiplier_from m ((t, mult) ∷ ts) score =
    multiplier_from (if leb t score then mult else m) ts score

-- `this.reputations.get(senderId) || 0`.
unfoldable pub reputation_of : Limiter → Text → ℕ
reputation_of l sender = or_else (get sender l.reputations) 0

unfoldable pub get_adjusted_limit : Limiter → Text → ℕ
unfolding multiplier_from reputation_of
get_adjusted_limit l sender =
    (l.base.max_requests * multiplier_from 1 thresholds (reputation_of l sender)) / 2

unfoldable pub check_rate : Limiter → ℕ → Text → Verdict
unfolding get_rate get_adjusted_limit
check_rate l now sender =
    if leb (get_adjusted_limit l sender) (get_rate l.base now sender).count
    then denied Reason.rate_limit_exceeded (some (get_adjusted_limit l sender))
    else allowed

unfoldable pub check_sizes : Limiter → ℕ → Text → ℕ → Verdict
unfolding SizeLimiter.check
check_sizes l today sender size =
    if ltb 0 size then SizeLimiter.check l.sizes today sender size else allowed

unfoldable pub check : Limiter → ℕ → ℕ → Text → ℕ → Verdict
unfolding check_rate check_sizes
check l now today sender size = elim (check_sizes l today sender size) [
  | allowed ↦ check_rate l now sender
  | denied r n ↦ denied r n
]

-- A change of a score, in tenths of a point.
pub data Delta : Type 0 where
  up down : ℕ → Delta

unfoldable pub moved : ℕ → Delta → ℕ
moved score (up n) = min 1000 (score + n)
moved score (down n) = min 1000 (score - n)

unfoldable pub adjust_reputation : Limiter → Text → Delta → Limiter
unfolding moved
adjust_reputation l sender delta = record l {
  reputations = set sender (moved (or_else (get sender l.reputations) 250) delta) l.reputations;
}

unfoldable pub note_size : Limiter → ℕ → Text → ℕ → SizeLimiter
unfolding record_storage
note_size l today sender size =
    if ltb 0 size then record_storage l.sizes today sender size else l.sizes

unfoldable pub note : Limiter → ℕ → ℕ → Text → ℕ → Limiter
unfolding RateLimiter.note note_size adjust_reputation
note l now today sender size =
    adjust_reputation
      (record l {
        base = RateLimiter.note l.base now sender;
        sizes = note_size l today sender size;
      })
      sender (up 1)

unfoldable pub note_if_allowed : Limiter → ℕ → ℕ → Text → ℕ → Verdict → Limiter
unfolding note
note_if_allowed l now today sender size allowed = note l now today sender size
note_if_allowed l now today sender size (denied r n) = l

unfoldable pub check_and_record : Limiter → ℕ → ℕ → Text → ℕ → Limiter × Verdict
unfolding check note_if_allowed
check_and_record l now today sender size =
    let v = check l now today sender size in (note_if_allowed l now today sender size v, v)

unfoldable pub report_spam : Limiter → Text → Limiter
unfolding adjust_reputation
report_spam l sender = adjust_reputation l sender (down 250)

pub data Level : Type 0 where
  low medium high verified : Level

unfoldable pub level_score : Option Level → ℕ
level_score (some Level.low) = 250
level_score (some Level.medium) = 500
level_score (some Level.high) = 750
level_score (some Level.verified) = 1000
level_score none = 500

-- A level that the table does not hold is `none`.
unfoldable pub mark_trusted : Limiter → Text → Option Level → Limiter
unfolding level_score
mark_trusted l sender level = record l {
  reputations = set sender (level_score level) l.reputations;
}
