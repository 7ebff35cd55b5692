-- ===== src/Gateway.antt =====
-- apps/api/src/modules/mql5-gateway/mql5-gateway.controller.ts: what the requests of a terminal do.
-- New ids and the clock are arguments. A body that the schema refuses is `bad_request`; a write that the
-- database refuses, since the terminal's row is not there, is `server_error`. Handlers that only answer,
-- `history/start`, `history/complete` and `config`, are left out.
mod Rows
pub mod Tables
pub mod Entrance
pub mod History
pub mod Pass
mod Tests
unfoldable pub use Rows.*
use mmxm.Prelude.{
  ℕ, suc, ◌⊎◌, inl, inr, Bool, true, false, ◌&&◌, Option, none, some, List, [], ◌∷◌, ◌++◌, map,
  String, leb, same_text, if◌then◌else◌, any, all, length,
}
use mmxm.Double.{Double}
use mmxm.KeyStore.{KeyStore}
use mmxm.Guard.{
  Entry, let_in, refused, Refusal, AuthContext, Request, GuardSettings, Terminal, can_activate,
}
use mmxm.Wire.{
  CandleDto, TickDto, SymbolMetadata, HandshakeDto, HeartbeatDto, HistoryBatchDto, is_candle,
  is_tick, is_handshake,
}
use mmxm.Ingest.{
  Ingested, accepted, duplicated, revised, CandleStore, TickStore, Counts, ingest_candle,
  ingest_ticks,
}

pub data Answer : Type 0 where
  connected : String → Answer
  counted : Counts → Answer
  ingested : Ingested → Answer
  received : Answer
  bad_request server_error : Answer

-- A request with the body of its endpoint; the handshake comes with the ids of its new rows.
pub data Call (W : Type 0) : Type 0 where
  handshake_call : HandshakeDto W → String → String → Call W
  ticks_call : List (TickDto W) → Call W
  current_call : CandleDto W → Call W
  closed_call : CandleDto W → Call W
  heartbeat_call : HeartbeatDto → Call W
  history_call : HistoryBatchDto W → Call W

-- One round of the loop over the candles of a batch.
abbrev pub tally : Ingested → Counts → Counts
tally duplicated n = record n { duplicated = suc n.duplicated }
tally _ n = record n { accepted = suc n.accepted }

abbrev was_duplicate : Ingested → Bool
was_duplicate duplicated = true
was_duplicate _ = false

pub answer_candle : Option Ingested → Answer
answer_candle none = server_error
answer_candle (some r) = ingested r

abbrev answer_counts : Option Counts → Answer
answer_counts none = server_error
answer_counts (some n) = counted n

module _ {W S : Type 0} where
  -- A candle row belongs to a terminal's row; a new one without it is refused, and there is no old one.
  pub store_candle : String → CandleDto W → GatewayStore W S → Option Ingested × GatewayStore W S
  store_candle terminal c s =
      if has_terminal terminal s.terminals
      then (let (result, candles) = ingest_candle terminal c s.candles in
          (some result, record s { candles = candles }))
      else (none, s)

  pub note_closed : String → CandleDto W → Option Ingested → GatewayStore W S → GatewayStore W S
  note_closed terminal c none s = s
  note_closed terminal c (some r) s = record s {
    audit =
        s.audit
        ++ record { event_id = c.event_id; terminal = terminal; was_duplicate = was_duplicate r }
          ∷ [];
  }

  -- The loop of `historyBatch`, with its counters.
  pub history_loop :
      String → List (CandleDto W) → Counts → GatewayStore W S → Option Counts × GatewayStore W S
  history_loop terminal [] n s = (some n, s)
  history_loop terminal (c ∷ cs) n s =
      let (r, s') = store_candle terminal (with_closed true c) s in
      elim r [ none ↦ (none, s') | some i ↦ history_loop terminal cs (tally i n) s' ]

  pub handshake :
      ℕ → String → String → HandshakeDto W → GatewayStore W S → Answer × GatewayStore W S
  handshake now id connection h s =
      if is_handshake h
      then (let (terminal, terminals) = upsert_terminal now id h s.terminals in
          (
            connected connection,
            record s {
              terminals = terminals;
              mappings = upsert_mapping h s.mappings;
              connections = s.connections ++ (connection, terminal) ∷ [];
            },
          ))
      else (bad_request, s)

  unfoldable pub heartbeat :
      ℕ → AuthContext → HeartbeatDto → GatewayStore W S → Answer × GatewayStore W S
  heartbeat now ctx h s =
      if has_terminal ctx.terminal_db_id s.terminals
      then (
        received,
        record s {
          heartbeats = s.heartbeats ++ record { terminal = ctx.terminal_db_id; heartbeat = h } ∷ [];
          terminals = beat now ctx.terminal_db_id s.terminals;
        },
      )
      else (server_error, s)

  module _ ⦃k : KeyStore S⦄ where
    pub ticks_batch :
        ℕ → AuthContext → List (TickDto W) → GatewayStore W S → Answer × GatewayStore W S
    ticks_batch now ctx ts s =
        if leb (length ts) 1000 && all is_tick ts
        then (let (n, ticks) = ingest_ticks ctx.terminal_db_id now ts s.ticks in
            (counted n, record s { ticks = ticks }))
        else (bad_request, s)

  module _ ⦃d : Double W⦄ where
    pub candle_current : AuthContext → CandleDto W → GatewayStore W S → Answer × GatewayStore W S
    candle_current ctx c s =
        if is_candle c
        then (let (r, s') = store_candle ctx.terminal_db_id (with_closed false c) s in
            (answer_candle r, s'))
        else (bad_request, s)

    pub candle_closed : AuthContext → CandleDto W → GatewayStore W S → Answer × GatewayStore W S
    candle_closed ctx c s =
        if is_candle c
        then (let (r, s') = store_candle ctx.terminal_db_id (with_closed true c) s in
            (answer_candle r, note_closed ctx.terminal_db_id c r s'))
        else (bad_request, s)

    pub history_batch :
        AuthContext → HistoryBatchDto W → GatewayStore W S → Answer × GatewayStore W S
    history_batch ctx h s =
        if leb (length h.candles) 1000 && all is_candle h.candles
        then (let (n, s') =
              history_loop ctx.terminal_db_id h.candles (record { accepted = 0; duplicated = 0 })
                s in
            (answer_counts n, s'))
        else (bad_request, s)

    module _ ⦃k : KeyStore S⦄ where
      pub handle : ℕ → AuthContext → Call W → GatewayStore W S → Answer × GatewayStore W S
      handle now ctx (handshake_call h id connection) s = handshake now id connection h s
      handle now ctx (ticks_call ts) s = ticks_batch now ctx ts s
      handle now ctx (current_call c) s = candle_current ctx c s
      handle now ctx (closed_call c) s = candle_closed ctx c s
      handle now ctx (heartbeat_call h) s = heartbeat now ctx h s
      handle now ctx (history_call h) s = history_batch ctx h s

      enter_with : ℕ → Call W → Entry × S → GatewayStore W S → (Refusal ⊎ Answer) × GatewayStore W S
      enter_with now call (refused why, keys) s =
          (inl why, record s { ticks = record s.ticks { keys = keys } })
      enter_with now call (let_in ctx, keys) s =
          let (answer, s') =
            handle now ctx call (record s { ticks = record s.ticks { keys = keys } }) in
          (inr answer, s')

      -- A whole request: the guard, then the handler.
      pub receive :
          GuardSettings W
          → Request
          → ℕ
          → Call W
          → GatewayStore W S
          → (Refusal ⊎ Answer) × GatewayStore W S
      receive g r now call s =
          enter_with now call (can_activate g (map as_known s.terminals) r now s.ticks.keys) s
