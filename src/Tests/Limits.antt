-- ===== src/Tests/Limits.antt =====
-- src/network/rate-limiter.js at concrete inputs.
use chainmail_protocol.Base.{ℕ, ◌≤◌, List, [], ◌∷◌, some, Text, codes, length}
use chainmail_protocol.Base.Dict.{text_key}
use chainmail_protocol.Network.RateLimiter.{Options, init, live}
use chainmail_protocol.Network.RateLimiter.Limit.{
  Call, attempts, cleans, start, run, times_of, times, run-bounded,
}

abbrev alice : Text
alice = codes "alice"

abbrev two_a_second : Options
two_a_second = record { max_requests = some 2; window_ms = some 1000; global_max_requests = some 5 }

abbrev calls : List (ℕ × Call)
calls = (10, attempts alice) ∷ (20, attempts alice) ∷ (5, cleans) ∷ (30, attempts alice) ∷ []

run-bounded_example :
    (length (
        live
          (init two_a_second).window_ms
          (run (start two_a_second 0) calls).now
          (times_of alice (run (start two_a_second 0) calls).log))
      ≤ (init two_a_second).max_requests)
    × (length (
          live
            (init two_a_second).window_ms
            (run (start two_a_second 0) calls).now
            (times (run (start two_a_second 0) calls).log))
        ≤ (init two_a_second).global_max_requests)
run-bounded_example =
    run-bounded two_a_second 0 alice calls ((λ e. cc), ((λ e. cc), ((λ e. cc), ((λ e. cc), tt))))
