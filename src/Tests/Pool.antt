-- ===== src/Tests/Pool.antt =====
-- src/network/connection-pool.js at concrete inputs.
use chainmail_protocol.Base.{◌≡◌, true, List, [], ◌∷◌, none, Text, codes}
use chainmail_protocol.Base.Dict.{text_key}
use chainmail_protocol.Network.ConnectionPool.{ConnectionPool, Options, init, fire_next}
use chainmail_protocol.Network.ConnectionPool.Tracking.{
  Event, starts, connects, identifies, disconnects, succeeds, run, IsTracked, without_head,
  run-init-IsTracked, fire_next-run,
}

abbrev options : Options
options = record {
  max_connections = none;
  min_relay_connections = none;
  health_check_interval = none;
  reconnect_backoff_base = none;
  max_reconnect_backoff = none;
}

abbrev alice : Text
alice = codes "alice"

abbrev bob : Text
bob = codes "bob"

abbrev events : List Event
events =
    starts
    ∷ connects alice 10
    ∷ identifies alice 11 true
    ∷ connects bob 12
    ∷ identifies bob 13 true
    ∷ succeeds alice 20000 14
    ∷ disconnects bob
    ∷ []

abbrev pool : ConnectionPool
pool = run (init options) events

run-init-IsTracked_example : IsTracked pool
run-init-IsTracked_example = run-init-IsTracked options events

fire_next-run_example : fire_next 1000 true pool ≡ without_head pool.timers pool
fire_next-run_example = fire_next-run options events 1000 true
