-- ===== src/Network/ConnectionPool.antt =====
-- src/network/connection-pool.js, the class `ConnectionPool`. The peers of the node are a library's;
-- what it reports and answers (a connection, a disconnection, a dial that fails, the latency of a
-- ping) are the arguments of the operations. Scores and latencies are counted in thousandths, and a
-- division rounds down.
use chainmail_protocol.Base.{
  ℕ, zero, suc, ◌+◌, ◌-◌, ◌*◌, ◌/◌, ◌^◌, min, max, Bool, true, false, not, ◌&&◌, List, [], ◌∷◌,
  ◌++◌, Option, none, some, if◌then◌else◌, leb, ltb, Text, length, or_else, take, map,
}
use chainmail_protocol.Base.Dict.{Dict, get, set, delete, has, keys, text_key}
use chainmail_protocol.Base.Sort.{sort}
pub mod Tracking
pub mod Choice

pub record Connection : Type 0 where
  pub connected_at : ℕ
  pub last_activity : ℕ
  pub messages_sent : ℕ
  pub latency : Option ℕ
  pub is_relay : Bool

pub record RelayInfo : Type 0 where
  pub discovered_at : ℕ
  pub successful_requests : ℕ
  pub failed_requests : ℕ
  pub average_latency : Option ℕ
  pub score : ℕ
  pub multiaddr : Option Text

pub record Attempts : Type 0 where
  pub count : ℕ
  pub last_attempt : ℕ

pub record Metrics : Type 0 where
  pub total_connections : ℕ
  pub active_connections : ℕ
  pub failed_connections : ℕ
  pub messages_routed : ℕ

-- A reconnection that waits for its timer, with the count of attempts that it was scheduled at.
pub record Timer : Type 0 where
  pub peer : Text
  pub attempt : ℕ
  pub delay : ℕ

pub record ConnectionPool : Type 0 where
  pub max_connections : ℕ
  pub min_relay_connections : ℕ
  pub health_check_interval : ℕ
  pub reconnect_backoff_base : ℕ
  pub max_reconnect_backoff : ℕ
  pub connections : Dict Text Connection
  pub relay_nodes : Dict Text RelayInfo
  pub failed_attempts : Dict Text Attempts
  pub metrics : Metrics
  pub is_running : Bool
  pub timers : List Timer

pub record Options : Type 0 where
  pub max_connections : Option ℕ
  pub min_relay_connections : Option ℕ
  pub health_check_interval : Option ℕ
  pub reconnect_backoff_base : Option ℕ
  pub max_reconnect_backoff : Option ℕ

unfoldable pub init : Options → ConnectionPool
init o = record {
  max_connections = or_else o.max_connections 50;
  min_relay_connections = or_else o.min_relay_connections 3;
  health_check_interval = or_else o.health_check_interval 30000;
  reconnect_backoff_base = or_else o.reconnect_backoff_base 1000;
  max_reconnect_backoff = or_else o.max_reconnect_backoff 60000;
  connections = [];
  relay_nodes = [];
  failed_attempts = [];
  metrics = record {
    total_connections = 0;
    active_connections = 0;
    failed_connections = 0;
    messages_routed = 0;
  };
  is_running = false;
  timers = [];
}

unfoldable pub start : ConnectionPool → ConnectionPool
start p = record p { is_running = true }

unfoldable pub stop : ConnectionPool → ConnectionPool
stop p = record p { is_running = false }

-- A map with the metric that says its size.
abbrev pub with_connections : Dict Text Connection → Metrics → ConnectionPool → ConnectionPool
with_connections m metrics p = record p {
  connections = m;
  metrics = record metrics { active_connections = length m };
}

abbrev pub new_connection : ℕ → Connection
new_connection now = record {
  connected_at = now;
  last_activity = now;
  messages_sent = 0;
  latency = none;
  is_relay = false;
}

unfoldable pub on_peer_connect : Text → ℕ → ConnectionPool → ConnectionPool
on_peer_connect peer now p =
    with_connections (set peer (new_connection now) p.connections)
      (record (p.metrics) { total_connections = p.metrics.total_connections + 1 })
      (record p { failed_attempts = delete peer p.failed_attempts })

abbrev pub attempt_count : Option Attempts → ℕ
attempt_count none = 0
attempt_count (some a) = a.count

unfoldable pub backoff : ConnectionPool → ℕ → ℕ
backoff p count = min (p.reconnect_backoff_base * 2 ^ count) p.max_reconnect_backoff

unfoldable pub schedule_reconnect : Text → ConnectionPool → ConnectionPool
unfolding backoff
schedule_reconnect peer p =
    let count = attempt_count (get peer p.failed_attempts) in
    if p.is_running
    then record p {
      timers = p.timers ++ (record { peer = peer; attempt = count; delay = backoff p count }) ∷ [];
    }
    else p

unfoldable pub on_peer_disconnect : Text → ConnectionPool → ConnectionPool
unfolding schedule_reconnect
on_peer_disconnect peer p =
    let p' = with_connections (delete peer p.connections) p.metrics p in
    if has peer p.relay_nodes then schedule_reconnect peer p' else p'

abbrev pub relay_flag : Text → Option Connection → Dict Text Connection → Dict Text Connection
relay_flag peer none m = m
relay_flag peer (some c) m = set peer (record c { is_relay = true }) m

unfoldable pub mark_as_relay : Text → ℕ → ConnectionPool → ConnectionPool
mark_as_relay peer now p = record p {
  connections = relay_flag peer (get peer p.connections) p.connections;
  relay_nodes =
      if has peer p.relay_nodes
      then p.relay_nodes
      else set peer
          (record {
            discovered_at = now;
            successful_requests = 0;
            failed_requests = 0;
            average_latency = none;
            score = 100000;
            multiaddr = none;
          })
          p.relay_nodes;
}

-- The peer is connected, and answers that it speaks the protocol of storage.
unfoldable pub check_if_relay : Text → ℕ → Bool → ConnectionPool → ConnectionPool
unfolding mark_as_relay
check_if_relay peer now stores p = if stores then mark_as_relay peer now p else p

-- A dial is made only where the relay has an address; `fails` says whether one fails.
abbrev pub dial_fails : Option RelayInfo → Bool → Bool
dial_fails none fails = false
dial_fails (some r) fails = elim r.multiaddr [ none ↦ false | some _ ↦ fails ]

abbrev pub retry : Timer → ConnectionPool → ConnectionPool
retry t p = if ltb t.attempt 5 then schedule_reconnect t.peer p else p

-- The timer of a reconnection goes off.
unfoldable pub fire : Timer → ℕ → Bool → ConnectionPool → ConnectionPool
unfolding schedule_reconnect
fire t now fails p =
    if p.is_running && dial_fails (get t.peer p.relay_nodes) fails
    then retry t (record p {
      failed_attempts =
          set t.peer (record { count = t.attempt + 1; last_attempt = now }) p.failed_attempts;
      metrics = record (p.metrics) { failed_connections = p.metrics.failed_connections + 1 };
    })
    else p

-- The timer at the head of the list goes off.
unfoldable pub fire_head : ℕ → Bool → List Timer → ConnectionPool → ConnectionPool
unfolding fire
fire_head now fails [] p = p
fire_head now fails (t ∷ ts) p = fire t now fails (record p { timers = ts })

unfoldable pub fire_next : ℕ → Bool → ConnectionPool → ConnectionPool
unfolding fire_head
fire_next now fails p = fire_head now fails p.timers p

unfoldable pub average : Option ℕ → ℕ → ℕ
average none latency = latency
average (some a) latency = (a * 8 + latency * 2) / 10

-- Thousandths: 100 points less a tenth of the latency, and the share of the requests that succeeded.
unfoldable pub score_of : RelayInfo → ℕ → ℕ
score_of r latency =
    ((100000 - latency / 10) * 4
      + ((r.successful_requests * 100000) / (r.successful_requests + r.failed_requests + 1)) * 6)
    / 10

abbrev pub scored : RelayInfo → ℕ → RelayInfo
scored r latency = record r {
  average_latency = some (average r.average_latency latency);
  score = score_of r (average r.average_latency latency);
}

abbrev pub change_relay :
    (RelayInfo → RelayInfo) → Text → Option RelayInfo → ConnectionPool → ConnectionPool
change_relay f peer none p = p
change_relay f peer (some r) p = record p { relay_nodes = set peer (f r) p.relay_nodes }

unfoldable pub update_relay_score : Text → ℕ → ConnectionPool → ConnectionPool
unfolding average score_of
update_relay_score peer latency p =
    change_relay (λ r. scored r latency) peer (get peer p.relay_nodes) p

abbrev pub sent_to : ℕ → Text → Option Connection → Dict Text Connection → Dict Text Connection
sent_to now peer none m = m
sent_to now peer (some c) m =
    set peer (record c { last_activity = now; messages_sent = c.messages_sent + 1 }) m

unfoldable pub record_relay_success : Text → ℕ → ℕ → ConnectionPool → ConnectionPool
unfolding average score_of
record_relay_success peer latency now p =
    let p' =
      change_relay
        (λ r. scored (record r { successful_requests = r.successful_requests + 1 }) latency) peer
        (get peer p.relay_nodes) p in
    record p' {
      connections = sent_to now peer (get peer p.connections) p.connections;
      metrics = record (p.metrics) { messages_routed = p.metrics.messages_routed + 1 };
    }

unfoldable pub record_relay_failure : Text → ConnectionPool → ConnectionPool
record_relay_failure peer p =
    change_relay
      (λ r. record r { failed_requests = r.failed_requests + 1; score = r.score - 10000 }) peer
      (get peer p.relay_nodes) p

abbrev pub count_relays : List (Text × Connection) → ℕ
count_relays [] = 0
count_relays ((k, c) ∷ m) = (if c.is_relay then 1 else 0) + count_relays m

unfoldable pub reconnect_missing : List Text → ConnectionPool → ConnectionPool
unfolding schedule_reconnect
reconnect_missing [] p = p
reconnect_missing (k ∷ ks) p =
    reconnect_missing ks (if has k p.connections then p else schedule_reconnect k p)

unfoldable pub ensure_min_relay_connections : ConnectionPool → ConnectionPool
unfolding reconnect_missing
ensure_min_relay_connections p =
    if ltb (count_relays p.connections) p.min_relay_connections
    then reconnect_missing (keys p.relay_nodes) p
    else p

abbrev pub stale_threshold : ℕ
stale_threshold = 5 * 60 * 1000

-- A connection that was pinged at `now`; `pings` is the latency of a peer, `none` where the ping fails.
abbrev pub pinged : Text → ℕ → Connection → Option ℕ → ConnectionPool → ConnectionPool
pinged peer now c none p = p
pinged peer now c (some latency) p =
    let p' = record p {
      connections =
          set peer (record c { last_activity = now; latency = some latency }) p.connections;
    } in
    if c.is_relay then update_relay_score peer latency p' else p'

abbrev pub check_connection :
    (Text → Option ℕ) → ℕ → Text → Option Connection → ConnectionPool → ConnectionPool
check_connection pings now peer none p = p
check_connection pings now peer (some c) p =
    if ltb stale_threshold (now - c.last_activity) then pinged peer now c (pings peer) p else p

unfoldable pub check_connections :
    (Text → Option ℕ) → ℕ → List Text → ConnectionPool → ConnectionPool
unfolding update_relay_score
check_connections pings now [] p = p
check_connections pings now (k ∷ ks) p =
    check_connections pings now ks (check_connection pings now k (get k p.connections) p)

unfoldable pub health_check : (Text → Option ℕ) → ℕ → ConnectionPool → ConnectionPool
unfolding check_connections ensure_min_relay_connections
health_check pings now p =
    if p.is_running
    then ensure_min_relay_connections (check_connections pings now (keys p.connections) p)
    else p

abbrev pub better : Text × RelayInfo → Text × RelayInfo → Bool
better a b = leb b.1.score a.1.score

unfoldable pub connected_relays :
    Dict Text Connection → List (Text × RelayInfo) → List (Text × RelayInfo)
connected_relays m [] = []
connected_relays m (e ∷ es) =
    let rest = connected_relays m es in if has e.0 m then e ∷ rest else rest

unfoldable pub get_best_relays : ℕ → ConnectionPool → List (Text × RelayInfo)
unfolding sort connected_relays
get_best_relays count p = take count (sort better (connected_relays p.connections p.relay_nodes))

abbrev pub total_score : List (Text × RelayInfo) → ℕ
total_score [] = 0
total_score (e ∷ es) = e.1.score + total_score es

-- The first relay at which the scores add up to the draw; by rounding there may be none.
unfoldable pub pick : ℕ → List (Text × RelayInfo) → Option Text
pick random [] = none
pick random (e ∷ es) =
    let rest = pick (random - e.1.score) es in if leb random e.1.score then some e.0 else rest

abbrev pub or_first : List (Text × RelayInfo) → Option Text → Option Text
or_first [] o = none
or_first (e ∷ es) none = some e.0
or_first (e ∷ es) (some k) = some k

-- `draw total` is `Math.random() * total`.
unfoldable pub get_relay_for_routing : (ℕ → ℕ) → ConnectionPool → Option Text
unfolding get_best_relays pick
get_relay_for_routing draw p =
    let relays = get_best_relays 5 p in or_first relays (pick (draw (total_score relays)) relays)

pub record Status : Type 0 where
  pub active_connections : ℕ
  pub relay_connections : ℕ
  pub known_relays : ℕ
  pub best_relays : List (Text × RelayInfo)
  pub metrics : Metrics

unfoldable pub get_status : ConnectionPool → Status
unfolding get_best_relays
get_status p = record {
  active_connections = length p.connections;
  relay_connections = count_relays p.connections;
  known_relays = length p.relay_nodes;
  best_relays = get_best_relays 3 p;
  metrics = p.metrics;
}
