-- ===== src/Terminals.antt =====
-- apps/api/src/modules/mql5-terminal/mql5-terminal.controller.ts: how alive the terminals look, and the request for
-- a resync. The columns of a terminal are its row in the gateway; its metadata is there too. Every row that
-- the gateway writes has the time of a heartbeat, so a terminal without one does not occur here.
pub mod Alive
mod Tests
use mmxm.Prelude.{
  ℕ, ◌-◌, ◌*◌, Bool, Option, List, [], ◌∷◌, ◌++◌, map, String, ltb, leb, if◌then◌else◌, same_text,
  filter, reverse, take,
}
use mmxm.Gateway.{TerminalRow, HeartbeatRow}

pub data TerminalStatus : Type 0 where
  online degraded offline : TerminalStatus

-- A line of the answer: the row, its age in milliseconds (0 when the heartbeat lies ahead of the clock, an age
-- of the same status), and the status of that age.
pub record ListedTerminal (W : Type 0) : Type 0 where
  pub row : TerminalRow W
  pub heartbeat_age : ℕ
  pub computed_status : TerminalStatus

pub record AuditEntry : Type 0 where
  pub action : String
  pub terminal : String

-- Below 15 seconds, up to 30 seconds, and after that.
pub status_of_age : ℕ → TerminalStatus
status_of_age age =
    if ltb age (15 * 1000) then online else if leb age (30 * 1000) then degraded else offline

module _ {W : Type 0} where
  pub listed_terminal : ℕ → TerminalRow W → ListedTerminal W
  listed_terminal now t =
      let age = now - t.last_heartbeat_at in
      record { row = t; heartbeat_age = age; computed_status = status_of_age age }

  pub list_terminals : ℕ → List (TerminalRow W) → List (ListedTerminal W)
  list_terminals now rows = map (listed_terminal now) (reverse rows)

-- The last 50, newest first; the table has them in the order in which they came.
pub list_heartbeats : String → List HeartbeatRow → List HeartbeatRow
list_heartbeats id rows = take 50 (reverse (filter (λ r. same_text r.terminal id) rows))

pub request_resync : String → List AuditEntry → List AuditEntry
request_resync id log = log ++ record { action = "RESYNC_REQUESTED"; terminal = id } ∷ []
