-- ===== src/Terminals/Tests.antt =====
-- The theorem on the list of the terminals at a sample, and its statuses at three ages.
use mmxm.Prelude.{◌≡◌, refl, true, none, [], ◌∷◌, ◌&&◌, map, reverse, if◌then◌else◌, same_text}
use mmxm.Double.Fixed.{fixed_double}
use mmxm.Samples.Feed.{terminal_row, tables}
use mmxm.Guard.{AuthContext}
use mmxm.Wire.{HeartbeatDto}
use mmxm.Gateway.{heartbeat, has_terminal}
use mmxm.Terminals.{online, degraded, offline, status_of_age, listed_terminal, list_terminals}
use mmxm.Terminals.Alive.{statuses, heartbeat_status}

abbrev context : AuthContext
context = record { terminal_db_id = "t1"; terminal_id = "mt5"; broker_symbol = "XAUUSD" }

abbrev sent : HeartbeatDto
sent = record {
  terminal_connected = true;
  trade_server_connected = true;
  last_tick_timestamp = none;
  pending_tick_count = 0;
  pending_candle_count = 0;
  pending_spool_count = 0;
  terminal_memory_used_mb = 100;
  server_timestamp = none;
}

heartbeat_status_example :
    statuses
      (list_terminals 9_000 (heartbeat 5_000 context sent (tables (terminal_row ∷ []))).1.terminals)
    ≡ map
        (λ t. (
          t.id,
          if has_terminal "t1" (terminal_row ∷ []) && same_text t.id "t1"
              then status_of_age 4_000
              else (listed_terminal 9_000 t).computed_status,
        ))
        (reverse (terminal_row ∷ []))
heartbeat_status_example = heartbeat_status 5_000 9_000 context sent (tables (terminal_row ∷ []))

ages :
    (status_of_age 14_999 ≡ online)
    × (status_of_age 30_000 ≡ degraded)
    × (status_of_age 30_001 ≡ offline)
unfolding status_of_age
ages = (refl, refl, refl)
