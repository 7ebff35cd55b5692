-- ===== src/MarketData/Tests.antt =====
-- The theorem on the candles of the API, and the tests of its queries, at samples.
use mmxm.Prelude.{ℕ, ◌+◌, ◌≡◌, refl, true, none, some, List, [], ◌∷◌}
use mmxm.Double.Fixed.{Fixed, fixed_double}
use mmxm.Types.{m5, h1}
use mmxm.Samples.{price}
use mmxm.Ingest.{CandleRow}
use mmxm.MarketData.{CandlesQuery, parse_query, first_seen, candles}
use mmxm.MarketData.Newest.{IsChart, candles-IsChart}

abbrev row : ℕ → ℕ → CandleRow Fixed
row id open_time = record {
  id = id;
  terminal = "t1";
  broker_symbol = "XAUUSD";
  timeframe = h1;
  open_time = open_time;
  close_time = open_time + 3_600_000;
  ohlc = record { opening = price 2000; high = price 2004; low = price 1998; close = price 2001 };
  tick_volume = 10;
  real_volume = none;
  spread = 20;
  is_closed = true;
  revision = 0;
}

-- The second and the third row have one time.
abbrev table : List (CandleRow Fixed)
table = row 1 0 ∷ row 2 7_200_000 ∷ row 3 7_200_000 ∷ row 4 3_600_000 ∷ []

abbrev query : CandlesQuery
query = record { timeframe = h1; limit = 3; before = some 9_000_000 }

candles-IsChart_example : IsChart query table (candles query table)
candles-IsChart_example = candles-IsChart query table

three_newest : candles query table ≡ row 4 3_600_000 ∷ row 2 7_200_000 ∷ []
unfolding candles first_seen
three_newest = refl

no_limit : parse_query none none none ≡ some (record { timeframe = m5; limit = 500; before = none })
unfolding parse_query
no_limit = refl

limit_too_high : parse_query none (some 2001) none ≡ none
unfolding parse_query
limit_too_high = refl
