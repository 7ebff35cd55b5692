-- ===== src/Ingest.antt =====
-- apps/api/src/modules/mql5-gateway/ingestion.service.ts: how candles and ticks are stored.
-- A table is the list of its rows. The stored candles get numbers as ids, and a stored tick keeps its
-- message, whose volume the code cuts to a whole number.
pub mod Candles
pub mod Keys
pub mod Settled
pub mod Ticks
pub mod TickTable
mod Tests
use Prim.Native.String
use mmxm.Prelude.{
  ℕ, suc, ◌+◌, ◌==◌, Bool, true, false, not, ◌&&◌, Option, none, some, List, [], ◌∷◌, ◌++◌, map,
  String, leb, ltb, same_text, if◌then◌else◌, filter, any, find, last, length,
}
use mmxm.KeyStore.{KeyStore}
use mmxm.Types.{Timeframe, m1, m5, m15, h1, h4, d1}
use mmxm.Wire.{Ohlc, CandleDto, TickDto}

pub record CandleRow (W : Type 0) : Type 0 where
  pub id : ℕ
  pub terminal : String
  pub broker_symbol : String
  pub timeframe : Timeframe
  pub open_time : ℕ
  pub close_time : ℕ
  pub ohlc : Ohlc W
  pub tick_volume : ℕ
  pub real_volume : Option W
  pub spread : ℕ
  pub is_closed : Bool
  pub revision : ℕ

pub record Revision (W : Type 0) : Type 0 where
  pub candle_id : ℕ
  pub revision : ℕ
  pub old_ohlc : Ohlc W
  pub new_ohlc : Ohlc W

pub data Ingested : Type 0 where
  accepted duplicated revised : Ingested

-- What is sent on: a closed candle to the stream, an open one to the channel of current candles.
pub data CandleMessage (W : Type 0) : Type 0 where
  closed_stream : CandleDto W → ℕ → CandleMessage W
  current_channel : CandleDto W → ℕ → CandleMessage W

pub record CandleStore (W : Type 0) : Type 0 where
  pub rows : List (CandleRow W)
  pub revisions : List (Revision W)
  pub next_id : ℕ
  pub messages : List (CandleMessage W)

abbrev pub same_timeframe : Timeframe → Timeframe → Bool
same_timeframe m1 m1 = true
same_timeframe m5 m5 = true
same_timeframe m15 m15 = true
same_timeframe h1 h1 = true
same_timeframe h4 h4 = true
same_timeframe d1 d1 = true
same_timeframe _ _ = false

module _ {W : Type 0} where
  -- `terminalDbId_brokerSymbol_timeframe_openTime`
  pub is_row_of : String → CandleDto W → CandleRow W → Bool
  is_row_of terminal c r =
      same_text r.terminal terminal
      && same_text r.broker_symbol c.broker_symbol
      && same_timeframe r.timeframe c.timeframe
      && r.open_time == c.open_time

  -- `update({ where: { id } })`
  pub update_row : ℕ → (CandleRow W → CandleRow W) → List (CandleRow W) → List (CandleRow W)
  update_row id f rows = map (λ r. if r.id == id then f r else r) rows

  -- A correction by the broker writes the revision.
  pub corrected : CandleDto W → CandleRow W → CandleRow W
  corrected c r = record r {
    ohlc = c.ohlc;
    tick_volume = c.tick_volume;
    spread = c.spread;
    revision = c.revision;
  }

  -- The update of an open candle writes whether it is closed, and not the revision.
  pub progressed : CandleDto W → CandleRow W → CandleRow W
  progressed c r = record r {
    ohlc = c.ohlc;
    tick_volume = c.tick_volume;
    spread = c.spread;
    is_closed = c.is_closed;
  }

  pub row_of : String → CandleDto W → ℕ → CandleRow W
  row_of terminal c id = record {
    id = id;
    terminal = terminal;
    broker_symbol = c.broker_symbol;
    timeframe = c.timeframe;
    open_time = c.open_time;
    close_time = c.close_time;
    ohlc = c.ohlc;
    tick_volume = c.tick_volume;
    real_volume = c.real_volume;
    spread = c.spread;
    is_closed = c.is_closed;
    revision = c.revision;
  }

  pub ingest_new : String → CandleDto W → CandleStore W → Ingested × CandleStore W
  ingest_new terminal c s = (
    accepted,
    record {
      rows = s.rows ++ row_of terminal c s.next_id ∷ [];
      revisions = s.revisions;
      next_id = suc s.next_id;
      messages =
          s.messages
          ++ (if c.is_closed then closed_stream c s.next_id else current_channel c s.next_id) ∷ [];
    },
  )

  pub ingest_existing : CandleDto W → CandleRow W → CandleStore W → Ingested × CandleStore W
  ingest_existing c e s =
      if e.is_closed && c.is_closed && leb c.revision e.revision
      then (duplicated, s)
      else if e.is_closed && c.is_closed && ltb e.revision c.revision
      then (
        revised,
        record s {
          revisions =
              s.revisions
              ++ record {
                candle_id = e.id;
                revision = c.revision;
                old_ohlc = e.ohlc;
                new_ohlc = c.ohlc;
              }
                ∷ [];
          rows = update_row e.id (corrected c) s.rows;
        },
      )
      else if not e.is_closed
      then (accepted, record s { rows = update_row e.id (progressed c) s.rows })
      else (duplicated, s)

  pub ingest_with :
      String → CandleDto W → CandleStore W → Option (CandleRow W) → Ingested × CandleStore W
  ingest_with terminal c s none = ingest_new terminal c s
  ingest_with terminal c s (some e) = ingest_existing c e s

  pub ingest_candle : String → CandleDto W → CandleStore W → Ingested × CandleStore W
  ingest_candle terminal c s = ingest_with terminal c s (find (is_row_of terminal c) s.rows)

pub record TickRow (W : Type 0) : Type 0 where
  pub terminal : String
  pub tick : TickDto W

pub record Counts : Type 0 where
  pub accepted : ℕ
  pub duplicated : ℕ

-- The keys of the deduplication, the table, and what is published of each batch.
pub record TickStore (W S : Type 0) : Type 0 where
  pub keys : S
  pub rows : List (TickRow W)
  pub published : List (TickDto W)

-- The ids have keys of their own in Redis, which live for a day.
abbrev pub dedupe_key : String → String
dedupe_key event_id = Prim.Native.String.◌++◌ "mmxm:dedupe:" event_id

pub dedupe : {S : Type 0} ⦃k : KeyStore S⦄ → String → ℕ → S → Bool × S
dedupe ⦃k⦄ event_id now keys = k.set_nx (dedupe_key event_id) now 86_400 keys

module _ {W : Type 0} where
  -- `createMany` with `skipDuplicates`: the event id is the primary key.
  pub create_many : String → List (TickDto W) → List (TickRow W) → List (TickRow W)
  create_many terminal [] rows = rows
  create_many terminal (t ∷ ts) rows = create_many terminal ts (
      if any (λ r. same_text r.tick.event_id t.event_id) rows
      then rows
      else rows ++ record { terminal = terminal; tick = t } ∷ [])

  abbrev publish_last : List (TickDto W) → List (TickDto W)
  publish_last ts = elim (last ts) [ none ↦ [] | some t ↦ t ∷ [] ]

module _ {W S : Type 0} ⦃k : KeyStore S⦄ where
  -- The first loop, with its two counters.
  pub sort_out : ℕ → List (TickDto W) → S → Counts × List (TickDto W) × S
  sort_out now [] keys = (record { accepted = 0; duplicated = 0 }, [], keys)
  sort_out now (t ∷ ts) keys =
      let (is_fresh, keys') = dedupe t.event_id now keys in
      let (counts, fresh, keys'') = sort_out now ts keys' in
      if is_fresh
      then (record counts { accepted = suc counts.accepted }, t ∷ fresh, keys'')
      else (record counts { duplicated = suc counts.duplicated }, fresh, keys'')

  pub ingest_ticks : String → ℕ → List (TickDto W) → TickStore W S → Counts × TickStore W S
  ingest_ticks terminal now ticks s =
      let (counts, fresh, keys) = sort_out now ticks s.keys in
      (
        counts,
        record {
          keys = keys;
          rows = create_many terminal fresh s.rows;
          published = s.published ++ publish_last fresh;
        },
      )
