-- ===== src/Candles/Recent.antt =====
-- apps/worker/src/candles.ts, `loadCandles`: the newest candles of a timeframe from the table that the
-- gateway fills. Rows of one time come in the order of the table, which the query leaves open.
use mmxm.Prelude.{
  ℕ, ◌-◌, ◌*◌, ◌==◌, Bool, ◌&&◌, List, [], map, leb, if◌then◌else◌, filter, take, sort_by,
}
use mmxm.Double.{Double, of_ℕ}
use mmxm.Types.{Candle, Timeframe, m1, m5, m15, h1, h4, d1}
use mmxm.Ingest.{CandleRow, same_timeframe}
use mmxm.Candles.{load_candle_range}

abbrev pub lookback_days : Timeframe → ℕ
lookback_days m15 = 30
lookback_days m5 = 7
lookback_days m1 = 2
lookback_days h1 = 30
lookback_days h4 = 90
lookback_days d1 = 180

-- The time from which rows are asked for; before 1970 there are none.
abbrev pub earliest : Timeframe → ℕ → ℕ
earliest tf now = now - lookback_days tf * 86_400_000

module _ {W : Type 0} where
  unfoldable pub is_recent : Timeframe → ℕ → CandleRow W → Bool
  is_recent tf now r = same_timeframe r.timeframe tf && leb (earliest tf now) r.open_time

  -- `orderBy: { openTime: 'desc' }, take: limit`
  unfoldable pub newest_rows : Timeframe → ℕ → ℕ → List (CandleRow W) → List (CandleRow W)
  newest_rows tf limit now rows =
      take limit (sort_by (λ a b. leb b.open_time a.open_time) (filter (is_recent tf now) rows))

module _ {W : Type 0} ⦃d : Double W⦄ where
  unfoldable pub to_candle : CandleRow W → Candle W
  to_candle r = record {
    open_time = r.open_time;
    close_time = r.close_time;
    opening = r.ohlc.opening;
    high = r.ohlc.high;
    low = r.ohlc.low;
    close = r.ohlc.close;
    tick_volume = of_ℕ r.tick_volume;
    real_volume = r.real_volume;
    spread = r.spread;
    is_closed = r.is_closed;
    revision = r.revision;
  }

  -- A timeframe without a limit is left out.
  unfoldable pub load_candles :
      (Timeframe → ℕ) → ℕ → List (CandleRow W) → Timeframe → List (Candle W)
  load_candles limits now rows tf =
      if limits tf == 0
      then []
      else load_candle_range (map to_candle (newest_rows tf (limits tf) now rows))
