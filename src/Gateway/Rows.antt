-- ===== src/Gateway/Rows.antt =====
-- apps/api/src/modules/mql5-gateway/mql5-gateway.controller.ts: the tables and their upserts.
use mmxm.Prelude.{ℕ, Bool, true, ◌&&◌, List, [], ◌∷◌, map, String, same_text, if◌then◌else◌, any}
use mmxm.Prelude.Int.{ℤ}
use mmxm.Guard.{Terminal}
use mmxm.Wire.{CandleDto, SymbolMetadata, HandshakeDto, HeartbeatDto}
use mmxm.Ingest.{CandleStore, TickStore}

pub record TerminalRow (W : Type 0) : Type 0 where
  pub id : String
  pub terminal_id : String
  pub terminal_name : String
  pub terminal_build : ℤ
  pub broker_name : String
  pub server_name : String
  pub account_id_hash : String
  pub broker_symbol : String
  pub metadata : SymbolMetadata W
  pub is_online : Bool
  pub last_heartbeat_at : ℕ

pub record MappingRow (W : Type 0) : Type 0 where
  pub broker_symbol : String
  pub broker_name : String
  pub metadata : SymbolMetadata W

pub record HeartbeatRow : Type 0 where
  pub terminal : String
  pub heartbeat : HeartbeatDto

pub record AuditRow : Type 0 where
  pub event_id : String
  pub terminal : String
  pub was_duplicate : Bool

-- The tables, with the keys in Redis inside `ticks`.
pub record GatewayStore (W S : Type 0) : Type 0 where
  pub terminals : List (TerminalRow W)
  pub mappings : List (MappingRow W)
  pub connections : List (String × String)
  pub heartbeats : List HeartbeatRow
  pub candles : CandleStore W
  pub ticks : TickStore W S
  pub audit : List AuditRow

module _ {W : Type 0} where
  unfoldable pub new_terminal : ℕ → String → HandshakeDto W → TerminalRow W
  new_terminal now id h = record {
    id = id;
    terminal_id = h.terminal_id;
    terminal_name = h.terminal_name;
    terminal_build = h.terminal_build;
    broker_name = h.broker_name;
    server_name = h.server_name;
    account_id_hash = h.account_id_hash;
    broker_symbol = h.broker_symbol;
    metadata = h.metadata;
    is_online = true;
    last_heartbeat_at = now;
  }

  -- The name and the account of a terminal that is there are not written again.
  unfoldable pub known_again : ℕ → HandshakeDto W → TerminalRow W → TerminalRow W
  known_again now h t = record t {
    terminal_build = h.terminal_build;
    broker_name = h.broker_name;
    server_name = h.server_name;
    broker_symbol = h.broker_symbol;
    metadata = h.metadata;
    is_online = true;
    last_heartbeat_at = now;
  }

  -- The id of the terminal, and the table.
  unfoldable pub upsert_terminal :
      ℕ → String → HandshakeDto W → List (TerminalRow W) → String × List (TerminalRow W)
  upsert_terminal now id h [] = (id, new_terminal now id h ∷ [])
  upsert_terminal now id h (t ∷ ts) =
      if same_text t.terminal_id h.terminal_id
      then (t.id, known_again now h t ∷ ts)
      else let (found, rest) = upsert_terminal now id h ts in (found, t ∷ rest)

  pub upsert_mapping : HandshakeDto W → List (MappingRow W) → List (MappingRow W)
  upsert_mapping h [] =
      record { broker_symbol = h.broker_symbol; broker_name = h.broker_name; metadata = h.metadata }
      ∷ []
  upsert_mapping h (m ∷ ms) =
      if same_text m.broker_symbol h.broker_symbol && same_text m.broker_name h.broker_name
      then record m { metadata = h.metadata } ∷ ms
      else m ∷ upsert_mapping h ms

  abbrev pub has_terminal : String → List (TerminalRow W) → Bool
  has_terminal id ts = any (λ t. same_text t.id id) ts

  unfoldable pub beat : ℕ → String → List (TerminalRow W) → List (TerminalRow W)
  beat now id ts =
      map
        (λ t.
          if same_text t.id id then record t { is_online = true; last_heartbeat_at = now } else t)
        ts

  -- The rows as the guard reads them.
  abbrev pub as_known : TerminalRow W → Terminal
  as_known t = record { id = t.id; terminal_id = t.terminal_id; broker_symbol = t.broker_symbol }

  -- `{ ...dto, isClosed }`
  abbrev pub with_closed : Bool → CandleDto W → CandleDto W
  with_closed b c = record c { is_closed = b }
