-- ===== src/Network/SizeLimiter.antt =====
-- src/network/rate-limiter.js, the class `SizeLimiter`. A day (`toDateString`) is a number.
use chainmail_protocol.Base.{
  ℕ, ◌+◌, ◌*◌, ◌≤◌, ◌≡◌, Option, none, some, [], arith, ltb, ◌==◌, or_else, if◌then◌else◌, Text,
}
use chainmail_protocol.Base.Dict.{Dict, get, set, text_key, get-set}
use chainmail_protocol.Network.RateLimiter.{Reason, Verdict, allowed, denied}

pub record Usage : Type 0 where
  pub bytes : ℕ
  pub date : ℕ

pub record SizeLimiter : Type 0 where
  pub max_message_size : ℕ
  pub max_daily_storage : ℕ
  pub daily_usage : Dict Text Usage

unfoldable pub init : Option ℕ → Option ℕ → SizeLimiter
init message daily = record {
  max_message_size = or_else message (1024 * 1024);
  max_daily_storage = or_else daily (10 * 1024 * 1024);
  daily_usage = [];
}

unfoldable pub check_size : SizeLimiter → ℕ → Verdict
check_size l size =
    if ltb l.max_message_size size
    then denied Reason.message_too_large (some l.max_message_size)
    else allowed

-- The usage that counts: today's.
unfoldable pub usage_on : ℕ → Option Usage → Option Usage
usage_on today none = none
usage_on today (some u) = if u.date == today then some u else none

unfoldable pub check_daily_storage : SizeLimiter → ℕ → Text → ℕ → Verdict
unfolding usage_on
check_daily_storage l today sender size = elim (usage_on today (get sender l.daily_usage)) [
  | none ↦ allowed
  | some u ↦
      if ltb l.max_daily_storage (u.bytes + size)
      then denied Reason.daily_storage_exceeded (some u.bytes)
      else allowed
]

unfoldable pub usage_after : ℕ → ℕ → Option Usage → Usage
usage_after today size none = record { bytes = size; date = today }
usage_after today size (some u) = record { bytes = u.bytes + size; date = u.date }

unfoldable pub record_storage : SizeLimiter → ℕ → Text → ℕ → SizeLimiter
unfolding usage_on usage_after
record_storage l today sender size = record l {
  daily_usage =
      set sender (usage_after today size (usage_on today (get sender l.daily_usage))) l.daily_usage;
}

unfoldable pub check : SizeLimiter → ℕ → Text → ℕ → Verdict
unfolding check_size check_daily_storage
check l today sender size = elim (check_size l size) [
  | allowed ↦ check_daily_storage l today sender size
  | denied r n ↦ denied r n
]

-- No sender's recorded bytes of a day exceed the daily limit.
abbrev pub IsWithin : SizeLimiter → Type 0
IsWithin l =
    (sender : Text) (u : Usage) → get sender l.daily_usage ≡ some u → u.bytes ≤ l.max_daily_storage

-- A message that passes the check is recorded within the daily limit, if one message cannot be
-- larger than the daily limit.
pub record_storage-IsWithin :
    (l : SizeLimiter) (today : ℕ) (sender : Text) (size : ℕ)
    → l.max_message_size ≤ l.max_daily_storage
    → IsWithin l
    → check l today sender size ≡ allowed
    → IsWithin (record_storage l today sender size)
unfolding check record_storage
record_storage-IsWithin l today sender size fits inv e s u g = ground (
  arith,
  get-set sender s (usage_after today size (usage_on today (get sender l.daily_usage)))
      l.daily_usage,
  inv s u,
)

-- Where one message may be larger than the daily limit, the first message of a day passes though
-- it exceeds that limit.
pub check_first_of_day :
    (l : SizeLimiter) (today : ℕ) (sender : Text) (size : ℕ)
    → usage_on today (get sender l.daily_usage) ≡ none
    → size ≤ l.max_message_size
    → check l today sender size ≡ allowed
unfolding check
check_first_of_day l today sender size e h = ground arith
