-- ===== src/Wire.antt =====
-- apps/api/src/modules/mql5-gateway/dto.ts: the messages of a terminal and the tests of their schemas.
-- A message is typed here, so that a schema is the test of what its types leave open; whole numbers that
-- may be negative are ℤ. The literals 'XAUUSD' and 'MQL5' are left out, and times are milliseconds.
use Prim.Native.Char.{code}
use Prim.Native.String.{String, [], ◌∷◌}
use mmxm.Prelude.{ℕ, ◌≡◌, Bool, true, false, ◌&&◌, Option, List, leb, ltb, ◌+◌, if◌then◌else◌}
use mmxm.Prelude.Int.{ℤ}
use mmxm.Double.{Double, of_ℕ}
use mmxm.Types.{Timeframe}

-- The four prices of a candle.
pub record Ohlc (W : Type 0) : Type 0 where
  pub opening : W
  pub high : W
  pub low : W
  pub close : W

pub record CandleDto (W : Type 0) : Type 0 where
  pub event_id : String
  pub terminal_id : String
  pub broker_symbol : String
  pub timeframe : Timeframe
  pub open_time : ℕ
  pub close_time : ℕ
  pub ohlc : Ohlc W
  pub tick_volume : ℕ
  pub real_volume : Option W
  pub spread : ℕ
  pub is_closed : Bool
  pub revision : ℕ

pub record TickDto (W : Type 0) : Type 0 where
  pub event_id : String
  pub terminal_id : String
  pub broker_symbol : String
  pub broker_timestamp_ms : ℕ
  pub bid : W
  pub ask : W
  pub last : Option W
  pub volume : Option W
  pub volume_real : Option W
  pub flags : ℤ
  pub spread_points : ℤ
  pub sequence : ℤ

-- Kept with a terminal and with the mapping of its symbol.
pub record SymbolMetadata (W : Type 0) : Type 0 where
  pub digits : ℤ
  pub point : W
  pub tick_size : W
  pub tick_value : Option W
  pub contract_size : Option W
  pub minimum_volume : Option W
  pub maximum_volume : Option W
  pub volume_step : Option W

pub record HandshakeDto (W : Type 0) : Type 0 where
  pub terminal_id : String
  pub terminal_name : String
  pub terminal_build : ℤ
  pub broker_name : String
  pub server_name : String
  pub account_id_hash : String
  pub broker_symbol : String
  pub metadata : SymbolMetadata W

pub record HeartbeatDto : Type 0 where
  pub terminal_connected : Bool
  pub trade_server_connected : Bool
  pub last_tick_timestamp : Option ℕ
  pub pending_tick_count : ℕ
  pub pending_candle_count : ℕ
  pub pending_spool_count : ℕ
  pub terminal_memory_used_mb : ℕ
  pub server_timestamp : Option ℕ

pub record HistoryBatchDto (W : Type 0) : Type 0 where
  pub batch_id : String
  pub sequence : ℕ
  pub timeframe : Timeframe
  pub candles : List (CandleDto W)
  pub is_last : Bool

-- `length` of a text, in UTF-16 code units: a character beyond the basic plane has two.
unfoldable pub utf16_length : String → ℕ
utf16_length [] = 0
utf16_length (c ∷ s) = (if ltb 65_535 (code c) then 2 else 1) + utf16_length s

-- `z.string().min(n)`
unfoldable pub has_min : ℕ → String → Bool
has_min n s = leb n (utf16_length s)

last_of_six : (a b c e f g : Bool) → a && b && c && e && f && g ≡ true → g ≡ true
last_of_six true true true true true g h = h
last_of_six false _ _ _ _ _ h = cc
last_of_six true false _ _ _ _ h = cc
last_of_six true true false _ _ _ h = cc
last_of_six true true true false _ _ h = cc
last_of_six true true true true false _ h = cc

module _ {W : Type 0} ⦃d : Double W⦄ where
  open d use {lt, le}

  -- `z.number().positive()`, which NaN is not.
  unfoldable pub is_positive : W → Bool
  is_positive x = lt (of_ℕ 0) x

  -- The refinement of the candle's schema.
  unfoldable pub is_ohlc : Ohlc W → Bool
  is_ohlc p =
      le p.low p.high
      && le p.opening p.high
      && le p.close p.high
      && le p.low p.opening
      && le p.low p.close

  unfoldable pub is_candle : CandleDto W → Bool
  is_candle c =
      has_min 8 c.event_id
      && is_positive c.ohlc.opening
      && is_positive c.ohlc.high
      && is_positive c.ohlc.low
      && is_positive c.ohlc.close
      && is_ohlc c.ohlc

  pub is_candle-is_ohlc : (c : CandleDto W) → is_candle c ≡ true → is_ohlc c.ohlc ≡ true
  unfolding is_candle
  is_candle-is_ohlc c e =
      last_of_six (has_min 8 c.event_id) (is_positive c.ohlc.opening) (is_positive c.ohlc.high)
        (is_positive c.ohlc.low) (is_positive c.ohlc.close) (is_ohlc c.ohlc) e

pub is_tick : {W : Type 0} → TickDto W → Bool
is_tick t = has_min 8 t.event_id

pub is_handshake : {W : Type 0} → HandshakeDto W → Bool
is_handshake h = has_min 8 h.terminal_id && has_min 1 h.broker_symbol
