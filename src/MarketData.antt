-- ===== src/MarketData.antt =====
-- apps/api/src/modules/market-data/market-data.controller.ts: the candles and the newest tick that the API
-- gives out, from the tables that the gateway fills, and the points of the chart
-- (apps/web/src/app/chart/xauusd/page.tsx). Rows of one time come in the order of the table, which
-- the query leaves open. A candle in an answer is its row; ids and the time of receipt are left out.
pub mod Chart
pub mod Newest
mod Tests
use mmxm.Prelude.{
  ℕ, ◌/◌, ◌==◌, Bool, true, false, ◌&&◌, Option, none, some, List, [], ◌∷◌, ◌++◌, map, reverse, ltb,
  leb, if◌then◌else◌, any, filter, take, sort_by,
}
use mmxm.Prelude.Int.{ℤ}
use mmxm.Double.{Double, of_ℕ}
use mmxm.Types.{Timeframe, m1, m5, m15, h1, h4, d1}
use mmxm.Wire.{Ohlc, TickDto}
use mmxm.Ingest.{CandleRow, TickRow, same_timeframe}

-- A query after its schema: the defaults are filled in.
pub record CandlesQuery : Type 0 where
  pub timeframe : Timeframe
  pub limit : ℕ
  pub before : Option ℕ

-- `candlesQuerySchema` on a timeframe, a limit and a time that are missing or well formed; a limit is a
-- whole number.
pub parse_query : Option Timeframe → Option ℕ → Option ℕ → Option CandlesQuery
parse_query tf none before =
    some (record { timeframe = elim tf [ none ↦ m5 | some t ↦ t ]; limit = 500; before = before })
parse_query tf (some n) before =
    if leb 1 n && leb n 2000
    then some
        (record { timeframe = elim tf [ none ↦ m5 | some t ↦ t ]; limit = n; before = before })
    else none

pub record LatestTick (W : Type 0) : Type 0 where
  pub bid : W
  pub ask : W
  pub spread_points : ℤ
  pub broker_timestamp_ms : ℕ

-- A point of the chart, with its time in seconds.
pub record Bar (W : Type 0) : Type 0 where
  pub time : W
  pub opening : W
  pub high : W
  pub low : W
  pub close : W

-- The timeframes of the chart with `TF_LIMIT`; the chart has no others.
abbrev pub tf_limit : Timeframe → Option ℕ
tf_limit m1 = some 1000
tf_limit m5 = some 500
tf_limit m15 = some 400
tf_limit h1 = some 300
tf_limit h4 = none
tf_limit d1 = none

abbrev pub is_before : Option ℕ → ℕ → Bool
is_before none t = true
is_before (some b) t = ltb t b

module _ {W : Type 0} where
  abbrev pub is_asked : CandlesQuery → CandleRow W → Bool
  is_asked q r = same_timeframe r.timeframe q.timeframe && is_before q.before r.open_time

  abbrev pub later : CandleRow W → CandleRow W → Bool
  later a b = leb b.open_time a.open_time

  -- The loop with `byTime`: the first row of a time stays.
  pub first_seen : List (CandleRow W) → List (CandleRow W) → List (CandleRow W)
  first_seen seen [] = seen
  first_seen seen (r ∷ rows) =
      let next = if any (λ s. s.open_time == r.open_time) seen then seen else seen ++ r ∷ [] in
      first_seen next rows

  pub candles : CandlesQuery → List (CandleRow W) → List (CandleRow W)
  candles q rows = reverse (first_seen [] (take q.limit (sort_by later (filter (is_asked q) rows))))

  abbrev pub newest_tick_of : TickRow W → List (TickRow W) → TickRow W
  newest_tick_of a [] = a
  newest_tick_of a (b ∷ rows) =
      if ltb (a.tick).broker_timestamp_ms (b.tick).broker_timestamp_ms
      then newest_tick_of b rows
      else newest_tick_of a rows

  abbrev answer_of : TickRow W → LatestTick W
  answer_of r = record {
    bid = (r.tick).bid;
    ask = (r.tick).ask;
    spread_points = (r.tick).spread_points;
    broker_timestamp_ms = (r.tick).broker_timestamp_ms;
  }

  pub latest_tick : List (TickRow W) → Option (LatestTick W)
  latest_tick [] = none
  latest_tick (a ∷ rows) = some (answer_of (newest_tick_of a rows))

module _ {W : Type 0} ⦃d : Double W⦄ where
  -- `setData` of the chart.
  pub bar_of : CandleRow W → Bar W
  bar_of r = record {
    time = d.div (of_ℕ r.open_time) (of_ℕ 1000);
    opening = (r.ohlc).opening;
    high = (r.ohlc).high;
    low = (r.ohlc).low;
    close = (r.ohlc).close;
  }

  pub chart_bars : Timeframe → List (CandleRow W) → List (Bar W)
  chart_bars tf rows = elim (tf_limit tf) [
    | none ↦ []
    | some n ↦ map bar_of (candles (record { timeframe = tf; limit = n; before = none }) rows)
  ]
