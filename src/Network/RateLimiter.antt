-- ===== src/Network/RateLimiter.antt =====
-- src/network/rate-limiter.js, the class `RateLimiter`. `Date.now()` is the argument `now`, in
-- milliseconds; a test `t > now - windowMs` is written `now < t + window_ms`, so that nothing is
-- subtracted below zero.
pub mod Window
pub mod Limit
pub mod Retry
use chainmail_protocol.Base.{
  ℕ, suc, ◌+◌, ◌-◌, Bool, List, [], ◌∷◌, ◌++◌, map, filter, Option, none, some, ltb, leb, length,
  or_else, if◌then◌else◌, Text, dec_lt,
}
use chainmail_protocol.Base.Dict.{Dict, get, set, delete, text_key}
use mathlib.Core.Option
use mathlib.Core.List.{head?}

pub record RateLimiter : Type 0 where
  pub max_requests : ℕ
  pub window_ms : ℕ
  pub global_max_requests : ℕ
  pub requests : Dict Text (List ℕ)
  pub global_requests : List ℕ

pub record Options : Type 0 where
  pub max_requests : Option ℕ
  pub window_ms : Option ℕ
  pub global_max_requests : Option ℕ

pub data Reason : Type 0 where
  global_limit_exceeded sender_limit_exceeded message_too_large daily_storage_exceeded
        rate_limit_exceeded :
      Reason

-- `denied` carries the number that comes with the reason: `retryAfterMs`, `maxSize`, `used` or
-- `adjustedLimit`. It is missing where the source computes with `undefined`.
pub data Verdict : Type 0 where
  allowed : Verdict
  denied : Reason → Option ℕ → Verdict

unfoldable pub init : Options → RateLimiter
init o = record {
  max_requests = or_else o.max_requests 10;
  window_ms = or_else o.window_ms 60000;
  global_max_requests = or_else o.global_max_requests 1000;
  requests = [];
  global_requests = [];
}

-- `timestamps.filter(t => t > windowStart)`.
unfoldable pub live : ℕ → ℕ → List ℕ → List ℕ
unfolding dec_lt
live window now = filter (λ t. dec_lt now (t + window))

-- `this.requests.get(senderId) || []`.
unfoldable pub requests_of : Text → Dict Text (List ℕ) → List ℕ
requests_of sender m = Option.get_or (get sender m) []

-- `oldest + this.windowMs - now`.
unfoldable pub retry_after : ℕ → ℕ → List ℕ → Option ℕ
retry_after window now ts = Option.map (λ t. (t + window) - now) (head? ts)

unfoldable pub check_sender : RateLimiter → ℕ → Text → Verdict
unfolding live requests_of retry_after
check_sender l now sender =
    let recent = live l.window_ms now (requests_of sender l.requests) in
    if leb l.max_requests (length recent)
    then denied Reason.sender_limit_exceeded (retry_after l.window_ms now recent)
    else allowed

unfoldable pub check : RateLimiter → ℕ → Text → RateLimiter × Verdict
unfolding check_sender live retry_after
check l now sender =
    let recent = live l.window_ms now l.global_requests in
    let l' : RateLimiter = record l { global_requests = recent } in
    (
      l',
      if leb l.global_max_requests (length recent)
          then denied Reason.global_limit_exceeded (retry_after l.window_ms now recent)
          else check_sender l' now sender,
    )

unfoldable pub note : RateLimiter → ℕ → Text → RateLimiter
unfolding requests_of
note l now sender = record l {
  requests = set sender (requests_of sender l.requests ++ now ∷ []) l.requests;
  global_requests = l.global_requests ++ now ∷ [];
}

-- `record` runs only behind an allowed check.
unfoldable pub note_if_allowed : RateLimiter → ℕ → Text → Verdict → RateLimiter
unfolding note
note_if_allowed l now sender allowed = note l now sender
note_if_allowed l now sender (denied r n) = l

unfoldable pub check_and_record : RateLimiter → ℕ → Text → RateLimiter × Verdict
unfolding check note_if_allowed
check_and_record l now sender =
    let (l', v) = check l now sender in (note_if_allowed l' now sender v, v)

pub record Rate : Type 0 where
  pub count : ℕ
  pub limit : ℕ
  pub remaining : ℕ
  pub reset_ms : ℕ

unfoldable pub get_rate : RateLimiter → ℕ → Text → Rate
unfolding live requests_of retry_after
get_rate l now sender =
    let recent = live l.window_ms now (requests_of sender l.requests) in
    record {
      count = length recent;
      limit = l.max_requests;
      remaining = l.max_requests - length recent;
      reset_ms = Option.get_or (retry_after l.window_ms now recent) 0;
    }

unfoldable pub get_global_rate : RateLimiter → ℕ → RateLimiter × Rate
unfolding live
get_global_rate l now =
    let recent = live l.window_ms now l.global_requests in
    (
      record l { global_requests = recent },
      record {
        count = length recent;
        limit = l.global_max_requests;
        remaining = l.global_max_requests - length recent;
        reset_ms = 0;
      },
    )

-- One round of the loop of `cleanup`.
unfoldable pub cleanup_sender : ℕ → ℕ → Text → Dict Text (List ℕ) → Dict Text (List ℕ)
unfolding live requests_of
cleanup_sender window now sender m = elim (live window now (requests_of sender m)) [
  | [] ↦ delete sender m
  | t ∷ ts ↦ set sender (t ∷ ts) m
]

unfoldable pub cleanup_senders : ℕ → ℕ → List Text → Dict Text (List ℕ) → Dict Text (List ℕ)
unfolding cleanup_sender
cleanup_senders window now [] m = m
cleanup_senders window now (sender ∷ senders) m =
    cleanup_senders window now senders (cleanup_sender window now sender m)

unfoldable pub cleanup : RateLimiter → ℕ → RateLimiter
unfolding cleanup_senders live
cleanup l now = record l {
  requests = cleanup_senders l.window_ms now (map (λ e. e.0) l.requests) l.requests;
  global_requests = live l.window_ms now l.global_requests;
}

unfoldable pub reset : RateLimiter → Text → RateLimiter
reset l sender = record l { requests = delete sender l.requests }
