-- ===== src/Network/ConnectionPool/Tracking.antt =====
-- src/network/connection-pool.js: what holds of a pool whatever the node reports.
use chainmail_protocol.Base.{
  ℕ, ◌+◌, ◌-◌, ◌*◌, ◌/◌, ◌≤◌, ◌≡◌, refl, sym, ◌∙◌, subst, Bool, true, false, List, [], ◌∷◌, Option,
  none, some, if◌then◌else◌, Text, length, arith, All, All-append, Option-cases, Bool-cases, inl,
  inr, ltb, ◌&&◌,
}
use chainmail_protocol.Base.Dict.{
  Dict, get, set, delete, has, keys, text_key, AllValues, set-AllValues, get-AllValues,
  length-set_known,
}
use chainmail_protocol.Network.ConnectionPool.{
  Connection, RelayInfo, Timer, ConnectionPool, Options, init, start, stop, on_peer_connect,
  on_peer_disconnect, schedule_reconnect, backoff, mark_as_relay, check_if_relay, fire, fire_next,
  average, score_of, update_relay_score, record_relay_success, record_relay_failure,
  ensure_min_relay_connections, reconnect_missing, health_check, check_connections,
  check_connection, pinged, relay_flag, scored, change_relay, sent_to, count_relays, dial_fails,
  fire_head, stale_threshold, with_connections,
}

pub data Event : Type 0 where
  starts stops : Event
  connects : Text → ℕ → Event
  disconnects : Text → Event
  identifies : Text → ℕ → Bool → Event
  timer : ℕ → Bool → Event
  succeeds : Text → ℕ → ℕ → Event
  fails : Text → Event
  checks : (Text → Option ℕ) → ℕ → Event

unfoldable pub step : ConnectionPool → Event → ConnectionPool
step p starts = start p
step p stops = stop p
step p (connects peer now) = on_peer_connect peer now p
step p (disconnects peer) = on_peer_disconnect peer p
step p (identifies peer now stores) = check_if_relay peer now stores p
step p (timer now failing) = fire_next now failing p
step p (succeeds peer latency now) = record_relay_success peer latency now p
step p (fails peer) = record_relay_failure peer p
step p (checks pings now) = health_check pings now p

unfoldable pub run : ConnectionPool → List Event → ConnectionPool
unfolding step
run p [] = p
run p (e ∷ es) = run (step p e) es

-- A relay with a score of at most 100 points, and without an address.
abbrev pub IsRanked : RelayInfo → Type 0
IsRanked r = (r.score ≤ 100000) × (r.multiaddr ≡ none)

-- The metric counts the connections, every relay is ranked, and no delay is above the maximum.
abbrev pub IsTracked : ConnectionPool → Type 0
IsTracked p =
    (p.metrics.active_connections ≡ length p.connections)
    × AllValues IsRanked p.relay_nodes
    × All (λ t. t.delay ≤ p.max_reconnect_backoff) p.timers

div-le : (n d k : ℕ) → n ≤ k * d → n / d ≤ k
div-le n d k h = grind arith

score_of-le : (r : RelayInfo) (latency : ℕ) → score_of r latency ≤ 100000
unfolding score_of
score_of-le r latency =
    let share : (r.successful_requests * 100000) / (r.successful_requests + r.failed_requests + 1)
        ≤ 100000 =
      div-le (r.successful_requests * 100000) (r.successful_requests + r.failed_requests + 1) 100000
        (omega arith) in
    omega arith

schedule_reconnect-IsTracked :
    (peer : Text) (p : ConnectionPool) → IsTracked p → IsTracked (schedule_reconnect peer p)
unfolding schedule_reconnect backoff
schedule_reconnect-IsTracked peer p (a, r, t) = elim (Bool-cases p.is_running) [
  | inr e ↦ rw e (a, r, t)
  | inl e ↦
      rw e
        (a, r, All-append (λ t. t.delay ≤ p.max_reconnect_backoff) p.timers _ t (omega arith, tt))
]

change_relay-IsTracked :
    (f : RelayInfo → RelayInfo) (peer : Text) (p : ConnectionPool)
    → ((r : RelayInfo) → IsRanked r → IsRanked (f r))
    → IsTracked p
    → IsTracked (change_relay f peer (get peer p.relay_nodes) p)
change_relay-IsTracked f peer p h (a, r, t) = elim (Option-cases (get peer p.relay_nodes)) [
  | inl e ↦ rw e (a, r, t)
  | inr (q, e) ↦ rw e (
    a,
    set-AllValues IsRanked peer (f q) p.relay_nodes
        (h q (get-AllValues IsRanked peer q p.relay_nodes r e)) r,
    t,
  )
]

sent_to-length :
    (now : ℕ) (peer : Text) (m : Dict Text Connection)
    → length (sent_to now peer (get peer m) m) ≡ length m
sent_to-length now peer m = elim (Option-cases (get peer m)) [
  | inl e ↦ rw e refl
  | inr (c, e) ↦ rw e (length-set_known peer _ c m e)
]

relay_flag-length :
    (peer : Text) (m : Dict Text Connection) → length (relay_flag peer (get peer m) m) ≡ length m
relay_flag-length peer m = elim (Option-cases (get peer m)) [
  | inl e ↦ rw e refl
  | inr (c, e) ↦ rw e (length-set_known peer _ c m e)
]

mark_as_relay-IsTracked :
    (peer : Text) (now : ℕ) (p : ConnectionPool)
    → IsTracked p
    → IsTracked (mark_as_relay peer now p)
unfolding mark_as_relay
mark_as_relay-IsTracked peer now p (a, r, t) = (
  a ∙ sym (relay_flag-length peer p.connections),
  elim (Bool-cases (has peer p.relay_nodes)) [
    | inl e ↦ rw e r
    | inr e ↦ rw e (set-AllValues IsRanked peer _ p.relay_nodes (omega arith, refl) r)
  ],
  t,
)

update_relay_score-IsTracked :
    (peer : Text) (latency : ℕ) (p : ConnectionPool)
    → IsTracked p
    → IsTracked (update_relay_score peer latency p)
unfolding update_relay_score
update_relay_score-IsTracked peer latency p v =
    change_relay-IsTracked (λ r. scored r latency) peer p
      (λ r h. (score_of-le r (average r.average_latency latency), h.1)) v

if-IsTracked :
    (b : Bool) (p q : ConnectionPool) → IsTracked p → IsTracked q → IsTracked (if b then p else q)
if-IsTracked true p q v w = v
if-IsTracked false p q v w = w

pinged-IsTracked :
    (peer : Text) (now : ℕ) (c : Connection) (latency : Option ℕ) (p : ConnectionPool)
    → get peer p.connections ≡ some c
    → IsTracked p
    → IsTracked (pinged peer now c latency p)
pinged-IsTracked peer now c none p g v = v
pinged-IsTracked peer now c (some latency) p g (a, r, t) =
    if-IsTracked c.is_relay (update_relay_score peer latency p') p'
      (update_relay_score-IsTracked peer latency p' v') v'
  where
    p' : ConnectionPool
    p' = record p {
      connections =
          set peer (record c { last_activity = now; latency = some latency }) p.connections;
    }

    v' : IsTracked p'
    v' = (
      a
          ∙ sym (
              length-set_known peer (record c { last_activity = now; latency = some latency }) c
                p.connections g),
      r,
      t,
    )

check_connection-IsTracked :
    (pings : Text → Option ℕ) (now : ℕ) (peer : Text) (o : Option Connection) (p : ConnectionPool)
    → get peer p.connections ≡ o
    → IsTracked p
    → IsTracked (check_connection pings now peer o p)
check_connection-IsTracked pings now peer none p g v = v
check_connection-IsTracked pings now peer (some c) p g v =
    if-IsTracked (ltb stale_threshold (now - c.last_activity)) (pinged peer now c (pings peer) p) p
      (pinged-IsTracked peer now c (pings peer) p g v) v

check_connections-IsTracked :
    (pings : Text → Option ℕ) (now : ℕ) (ks : List Text) (p : ConnectionPool)
    → IsTracked p
    → IsTracked (check_connections pings now ks p)
unfolding check_connections
check_connections-IsTracked pings now [] p v = v
check_connections-IsTracked pings now (k ∷ ks) p v =
    check_connections-IsTracked pings now ks (check_connection pings now k (get k p.connections) p)
      (check_connection-IsTracked pings now k (get k p.connections) p refl v)

reconnect_missing-IsTracked :
    (ks : List Text) (p : ConnectionPool) → IsTracked p → IsTracked (reconnect_missing ks p)
unfolding reconnect_missing
reconnect_missing-IsTracked [] p v = v
reconnect_missing-IsTracked (k ∷ ks) p v =
    reconnect_missing-IsTracked ks (if has k p.connections then p else schedule_reconnect k p) (
      if-IsTracked (has k p.connections) p (schedule_reconnect k p) v
        (schedule_reconnect-IsTracked k p v))

ensure-IsTracked : (p : ConnectionPool) → IsTracked p → IsTracked (ensure_min_relay_connections p)
unfolding ensure_min_relay_connections
ensure-IsTracked p v =
    if-IsTracked (ltb (count_relays p.connections) p.min_relay_connections)
      (reconnect_missing (keys p.relay_nodes) p) p
      (reconnect_missing-IsTracked (keys p.relay_nodes) p v) v

health_check-IsTracked :
    (pings : Text → Option ℕ) (now : ℕ) (p : ConnectionPool)
    → IsTracked p
    → IsTracked (health_check pings now p)
unfolding health_check
health_check-IsTracked pings now p v =
    let q : ConnectionPool = check_connections pings now (keys p.connections) p in
    if-IsTracked p.is_running (ensure_min_relay_connections q) p
      (ensure-IsTracked q (check_connections-IsTracked pings now (keys p.connections) p v)) v

dial_fails-false :
    (peer : Text) (failing : Bool) (m : Dict Text RelayInfo)
    → AllValues IsRanked m
    → dial_fails (get peer m) failing ≡ false
dial_fails-false peer failing m r = elim (Option-cases (get peer m)) [
  | inl e ↦ rw e refl
  | inr (q, e) ↦ rw e (rw (get-AllValues IsRanked peer q m r e).1 refl)
]

-- The pool without the timer that goes off next.
abbrev pub without_head : List Timer → ConnectionPool → ConnectionPool
without_head [] p = p
without_head (t ∷ ts) p = record p { timers = ts }

and-false : (b : Bool) → (b && false) ≡ false
and-false true = refl
and-false false = refl

fire_head-without_head :
    (now : ℕ) (failing : Bool) (ts : List Timer) (p : ConnectionPool)
    → AllValues IsRanked p.relay_nodes
    → fire_head now failing ts p ≡ without_head ts p
unfolding fire_head fire
fire_head-without_head now failing [] p r = refl
fire_head-without_head now failing (t ∷ ts) p r =
    rw (dial_fails-false t.peer failing p.relay_nodes r) (rw (and-false p.is_running) refl)

without_head-IsTracked :
    (ts : List Timer) (p : ConnectionPool)
    → p.timers ≡ ts
    → IsTracked p
    → IsTracked (without_head ts p)
without_head-IsTracked [] p e v = v
without_head-IsTracked (t ∷ ts) p e (a, r, d) =
    (a, r, (subst (All (λ t. t.delay ≤ p.max_reconnect_backoff)) e d).1)

on_peer_disconnect-IsTracked :
    (peer : Text) (p : ConnectionPool) → IsTracked p → IsTracked (on_peer_disconnect peer p)
unfolding on_peer_disconnect
on_peer_disconnect-IsTracked peer p (a, r, t) =
    let q : ConnectionPool = with_connections (delete peer p.connections) p.metrics p in
    if-IsTracked (has peer p.relay_nodes) (schedule_reconnect peer q) q
      (schedule_reconnect-IsTracked peer q (refl, r, t)) (refl, r, t)

record_relay_success-IsTracked :
    (peer : Text) (latency now : ℕ) (p : ConnectionPool)
    → IsTracked p
    → IsTracked (record_relay_success peer latency now p)
unfolding record_relay_success
record_relay_success-IsTracked peer latency now p v =
    (v.0 ∙ sym (sent_to-length now peer p.connections), relays.1, relays.2)
  where
    counted : RelayInfo → RelayInfo
    counted r = scored (record r { successful_requests = r.successful_requests + 1 }) latency

    relays : IsTracked (change_relay counted peer (get peer p.relay_nodes) p)
    relays =
        change_relay-IsTracked counted peer p
          (λ r h. (
            score_of-le (record r { successful_requests = r.successful_requests + 1 })
                (average r.average_latency latency),
            h.1,
          ))
          v

step-IsTracked : (p : ConnectionPool) (e : Event) → IsTracked p → IsTracked (step p e)
unfolding step start stop on_peer_connect check_if_relay fire_next record_relay_failure
step-IsTracked p starts v = v
step-IsTracked p stops v = v
step-IsTracked p (connects peer now) (a, r, t) = (refl, r, t)
step-IsTracked p (disconnects peer) v = on_peer_disconnect-IsTracked peer p v
step-IsTracked p (identifies peer now stores) v =
    if-IsTracked stores (mark_as_relay peer now p) p (mark_as_relay-IsTracked peer now p v) v
step-IsTracked p (timer now failing) v =
    subst IsTracked (sym (fire_head-without_head now failing p.timers p v.1))
      (without_head-IsTracked p.timers p refl v)
step-IsTracked p (succeeds peer latency now) v = record_relay_success-IsTracked peer latency now p v
step-IsTracked p (fails peer) v =
    change_relay-IsTracked _ peer p (λ r h. (omega (arith, h.0), h.1)) v
step-IsTracked p (checks pings now) v = health_check-IsTracked pings now p v

-- Whatever the node reports to a new pool: the metric of active connections counts the connections,
-- every score is at most 100 points, every delay of a reconnection is at most the maximum, and no
-- relay has an address.
pub run-init-IsTracked : (o : Options) (es : List Event) → IsTracked (run (init o) es)
unfolding run init
run-init-IsTracked o es = run-IsTracked (init o) es init-IsTracked
  where
    run-IsTracked : (p : ConnectionPool) (es : List Event) → IsTracked p → IsTracked (run p es)
    run-IsTracked p [] v = v
    run-IsTracked p (e ∷ es) v = run-IsTracked (step p e) es (step-IsTracked p e v)

    init-IsTracked : IsTracked (init o)
    init-IsTracked = (refl, tt, tt)

-- The pool never dials: since no relay is kept with its address, the timer of a reconnection that
-- goes off does nothing but leave the list, whatever the node reported before and whether or not a
-- dial would fail.
pub fire_next-run :
    (o : Options) (es : List Event) (now : ℕ) (failing : Bool)
    → fire_next now failing (run (init o) es)
      ≡ without_head (run (init o) es).timers (run (init o) es)
unfolding fire_next
fire_next-run o es now failing =
    let p : ConnectionPool = run (init o) es in
    fire_head-without_head now failing p.timers p (run-init-IsTracked o es).1
