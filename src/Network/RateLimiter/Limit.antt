-- ===== src/Network/RateLimiter/Limit.antt =====
-- src/network/rate-limiter.js, `RateLimiter` in use: calls of its methods on a clock that never
-- goes back, against the log of what was let through.
use chainmail_protocol.Base.{
  ℕ, ◌+◌, ◌≤◌, ◌<◌, ◌≡◌, refl, ◌≢◌, ◌⊎◌, List, [], ◌∷◌, ◌++◌, map, arith, Text, length,
  length-append, ite, All, inl, inr,
}
use chainmail_protocol.Base.Dict.{text_key, get}
use chainmail_protocol.Network.RateLimiter.{
  RateLimiter, Options, Verdict, allowed, denied, init, live, requests_of, check_sender, check,
  note, check_and_record, get_global_rate, cleanup, reset,
}
use chainmail_protocol.Network.RateLimiter.Window.{
  length-live-le, live-append, live-live, live_later, length-live_later, live-cleanup_senders,
  requests_of-set_self, requests_of-set_ne, requests_of-delete_ne,
}
use mathlib.Core.List.{map-append, append-nil}

pub data Call : Type 0 where
  attempts resets : Text → Call
  cleans reports : Call

-- The limiter, the clock, and the log of the messages let through, oldest first.
pub record World : Type 0 where
  pub limiter : RateLimiter
  pub now : ℕ
  pub log : List (ℕ × Text)

log_if_allowed : ℕ → Text → Verdict → List (ℕ × Text) → List (ℕ × Text)
log_if_allowed now s allowed log = log ++ (now, s) ∷ []
log_if_allowed now s (denied r n) log = log

pub act : World → Call → World
unfolding log_if_allowed
act w (attempts s) =
    let (l, v) = check_and_record w.limiter w.now s in
    record w { limiter = l; log = log_if_allowed w.now s v w.log }
act w (resets s) = record w { limiter = reset w.limiter s }
act w cleans = record w { limiter = cleanup w.limiter w.now }
act w reports = record w { limiter = (get_global_rate w.limiter w.now).0 }

abbrev wait : World → ℕ → World
wait w ms = record w { now = w.now + ms }

-- Calls, each with the milliseconds that pass before it.
unfoldable pub run : World → List (ℕ × Call) → World
unfolding act
run w [] = w
run w ((ms, c) ∷ cs) = run (act (wait w ms) c) cs

-- The times at which the sender was let through.
unfoldable pub times_of : Text → List (ℕ × Text) → List ℕ
times_of s [] = []
times_of s ((t, r) ∷ log) = ite (text_key.dec r s) (t ∷ times_of s log) (times_of s log)

abbrev pub times : List (ℕ × Text) → List ℕ
times = map (λ e. e.0)

times_of-append :
    (s : Text) (xs ys : List (ℕ × Text)) → times_of s (xs ++ ys) ≡ times_of s xs ++ times_of s ys
unfolding times_of
times_of-append s [] ys = refl
times_of-append s ((t, r) ∷ xs) ys = ground (arith, times_of-append s xs ys)

record Follows (s : Text) (max g w : ℕ) (u : World) : Type 0 where
  max_fixed : u.limiter.max_requests ≡ max
  global_fixed : u.limiter.global_max_requests ≡ g
  window_fixed : u.limiter.window_ms ≡ w
  agree : live w u.now (requests_of s u.limiter.requests) ≡ live w u.now (times_of s u.log)
  bounded : length (live w u.now (times_of s u.log)) ≤ max
  agree_global : live w u.now u.limiter.global_requests ≡ live w u.now (times u.log)
  bounded_global : length (live w u.now (times u.log)) ≤ g

module _ (s : Text) (max g w : ℕ) where
  wait-Follows : (u : World) (ms : ℕ) → Follows s max g w u → Follows s max g w (wait u ms)
  wait-Follows u ms f = record {
    max_fixed = f.max_fixed;
    global_fixed = f.global_fixed;
    window_fixed = f.window_fixed;
    agree = live_later w u.now (u.now + ms) _ _ (omega arith) f.agree;
    bounded = omega (arith, f.bounded, length-live_later w u.now (u.now + ms) (times_of s u.log));
    agree_global = live_later w u.now (u.now + ms) _ _ (omega arith) f.agree_global;
    bounded_global =
        omega (arith, f.bounded_global, length-live_later w u.now (u.now + ms) (times u.log));
  }

  -- The world after a message that is let through.
  abbrev noted : World → Text → World
  noted u r = record u {
    limiter =
        note (record u.limiter { global_requests = live w u.now u.limiter.global_requests }) u.now
          r;
    log = u.log ++ (u.now, r) ∷ [];
  }

  noted_self :
      (u : World)
      → Follows s max g w u
      → live w u.now (requests_of s (noted u s).limiter.requests)
        ≡ live w u.now (times_of s (noted u s).log)
  unfolding note times_of
  noted_self u f = ground (
    arith,
    requests_of-set_self s (requests_of s u.limiter.requests ++ u.now ∷ []) u.limiter.requests,
    times_of-append s u.log ((u.now, s) ∷ []),
    live-append w u.now (requests_of s u.limiter.requests) (u.now ∷ []),
    live-append w u.now (times_of s u.log) (u.now ∷ []),
    f.agree,
  )

  noted-other :
      (u : World) (r : Text)
      → s ≢ r
      → Follows s max g w u
      → (live w u.now (requests_of s (noted u r).limiter.requests)
          ≡ live w u.now (times_of s (noted u r).log))
        × (times_of s (noted u r).log ≡ times_of s u.log)
  unfolding note times_of
  noted-other u r h f = ground (
    arith,
    requests_of-set_ne r s (requests_of r u.limiter.requests ++ u.now ∷ []) u.limiter.requests h,
    times_of-append s u.log ((u.now, r) ∷ []),
    append-nil (times_of s u.log),
    f.agree,
  )

  noted-global :
      (u : World) (r : Text)
      → Follows s max g w u
      → live w u.now (noted u r).limiter.global_requests ≡ live w u.now (times (noted u r).log)
  unfolding note
  noted-global u r f = ground (
    arith,
    map-append (λ (e : ℕ × Text). e.0) u.log ((u.now, r) ∷ []),
    live-append w u.now (live w u.now u.limiter.global_requests) (u.now ∷ []),
    live-append w u.now (times u.log) (u.now ∷ []),
    live-live w u.now u.now u.limiter.global_requests,
    f.agree_global,
  )

  -- The two tests that a message has passed.
  abbrev Passed : World → Text → Type 0
  Passed u r =
      (length (live w u.now (requests_of r u.limiter.requests)) < max)
      × (length (live w u.now u.limiter.global_requests) < g)

  noted-bounded :
      (u : World) (r : Text)
      → Follows s max g w u
      → Passed u r
      → length (live w u.now (times_of s (noted u r).log)) ≤ max
  unfolding times_of
  noted-bounded u r f p = elim (text_key.dec s r) [
    | yes e ↦ ground (
      arith,
      times_of-append s u.log ((u.now, r) ∷ []),
      live-append w u.now (times_of s u.log) (u.now ∷ []),
      length-append (live w u.now (times_of s u.log)) (live w u.now (u.now ∷ [])),
      length-live-le w u.now (u.now ∷ []),
      f.agree,
    )
    | no h ↦ rw ((noted-other u r h f).1) f.bounded
  ]

  noted-bounded_global :
      (u : World) (r : Text)
      → Follows s max g w u
      → Passed u r
      → length (live w u.now (times (noted u r).log)) ≤ g
  noted-bounded_global u r f p = ground (
    arith,
    map-append (λ (e : ℕ × Text). e.0) u.log ((u.now, r) ∷ []),
    live-append w u.now (times u.log) (u.now ∷ []),
    length-append (live w u.now (times u.log)) (live w u.now (u.now ∷ [])),
    length-live-le w u.now (u.now ∷ []),
    f.agree_global,
  )

  noted-agree :
      (u : World) (r : Text)
      → Follows s max g w u
      → live w u.now (requests_of s (noted u r).limiter.requests)
        ≡ live w u.now (times_of s (noted u r).log)
  noted-agree u r f = elim (text_key.dec s r) [
    | yes e ↦ rw (← e) (noted_self u f)
    | no h ↦ (noted-other u r h f).0
  ]

  noted-Follows :
      (u : World) (r : Text) → Follows s max g w u → Passed u r → Follows s max g w (noted u r)
  unfolding note
  noted-Follows u r f p = record {
    max_fixed = f.max_fixed;
    global_fixed = f.global_fixed;
    window_fixed = f.window_fixed;
    agree = noted-agree u r f;
    bounded = noted-bounded u r f p;
    agree_global = noted-global u r f;
    bounded_global = noted-bounded_global u r f p;
  }

  -- The world after a message that is turned away: only the global log is pruned.
  abbrev refused : World → World
  refused u = record u {
    limiter = record u.limiter { global_requests = live w u.now u.limiter.global_requests };
  }

  refused-Follows : (u : World) → Follows s max g w u → Follows s max g w (refused u)
  refused-Follows u f = ground (arith, live-live w u.now u.now u.limiter.global_requests)

  attempt-cases :
      (u : World) (r : Text)
      → Follows s max g w u
      → ((act u (attempts r) ≡ noted u r) × Passed u r) ⊎ (act u (attempts r) ≡ refused u)
  unfolding act check_and_record check check_sender
  attempt-cases u r f = ground arith

  attempt-Follows :
      (u : World) (r : Text) → Follows s max g w u → Follows s max g w (act u (attempts r))
  attempt-Follows u r f = elim (attempt-cases u r f) [
    | inl (e, p) ↦ rw e (noted-Follows u r f p)
    | inr e ↦ rw e (refused-Follows u f)
  ]

  act-Follows :
      (u : World) (c : Call) → c ≢ resets s → Follows s max g w u → Follows s max g w (act u c)
  unfolding act reset cleanup get_global_rate
  act-Follows u (attempts r) h f = attempt-Follows u r f
  act-Follows u (resets r) h f = record {
    max_fixed = f.max_fixed;
    global_fixed = f.global_fixed;
    window_fixed = f.window_fixed;
    agree = rw (requests_of-delete_ne r s u.limiter.requests (λ e. h (rw e))) f.agree;
    bounded = f.bounded;
    agree_global = f.agree_global;
    bounded_global = f.bounded_global;
  }
  act-Follows u cleans h f = ground (
    arith,
    live-cleanup_senders w u.now (map (λ e. e.0) u.limiter.requests) s u.limiter.requests,
    live-live w u.now u.now u.limiter.global_requests,
  )
  act-Follows u reports h f = ground (arith, live-live w u.now u.now u.limiter.global_requests)

  run-Follows :
      (u : World) (cs : List (ℕ × Call))
      → All (λ c. c.1 ≢ resets s) cs
      → Follows s max g w u
      → Follows s max g w (run u cs)
  unfolding run
  run-Follows u [] h f = f
  run-Follows u ((ms, c) ∷ cs) h f =
      run-Follows (act (wait u ms) c) cs h.1 (act-Follows (wait u ms) c h.0 (wait-Follows u ms f))

-- A new limiter, at some time.
unfoldable pub start : Options → ℕ → World
unfolding init
start o now = record { limiter = init o; now = now; log = [] }

start-Follows :
    (o : Options) (now : ℕ) (s : Text)
    → Follows s (init o).max_requests (init o).global_max_requests (init o).window_ms (start o now)
unfolding start init times_of requests_of live get
start-Follows o now s = ground arith

-- Whatever sequence of calls a new limiter has served, on a clock that does not go back: the
-- messages of a sender that it let through in the last `window_ms` milliseconds are at most
-- `max_requests`, if the sender's log was not reset, and those of all senders together are at most
-- `global_max_requests`.
pub run-bounded :
    (o : Options) (now : ℕ) (s : Text) (cs : List (ℕ × Call))
    → All (λ c. c.1 ≢ resets s) cs
    → (length (
          live
            (init o).window_ms
            (run (start o now) cs).now
            (times_of s (run (start o now) cs).log))
        ≤ (init o).max_requests)
      × (length
            (live (init o).window_ms (run (start o now) cs).now (times (run (start o now) cs).log))
          ≤ (init o).global_max_requests)
run-bounded o now s cs h =
    let f =
      run-Follows s (init o).max_requests (init o).global_max_requests (init o).window_ms
        (start o now) cs h (start-Follows o now s) in
    (f.bounded, f.bounded_global)
