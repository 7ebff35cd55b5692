-- ===== src/Candles/Tests.antt =====
-- The theorems on loaded candles at samples.
use mmxm.Prelude.{true, All, ◌≤◌, [], refl}
use mmxm.Double.Fixed.{Fixed, fixed_double}
use mmxm.Types.{h1}
use mmxm.Samples.Feed.{hour_candle}
use mmxm.Wire.{is_ohlc}
use mmxm.Ingest.{CandleStore, ingest_candle}
use mmxm.Ingest.Keys.{IsCandleTable, ingest_candle-IsCandleTable}
use mmxm.Candles.Recent.{earliest, load_candles}
use mmxm.Candles.Sorted.{IsAscending, HasOrder, load_candles-IsAscending}

abbrev nothing : CandleStore Fixed
nothing = record { rows = []; revisions = []; next_id = 0; messages = [] }

-- The later hour comes first.
abbrev two_hours : CandleStore Fixed
two_hours =
    (ingest_candle "t1" (hour_candle 0 0 true)
      (ingest_candle "t1" (hour_candle 3_600_000 0 true) nothing).1).1

two_hours-IsCandleTable : IsCandleTable two_hours
unfolding is_ohlc
two_hours-IsCandleTable =
    ingest_candle-IsCandleTable "t1" (hour_candle 0 0 true)
      (ingest_candle "t1" (hour_candle 3_600_000 0 true) nothing).1 refl
      (ingest_candle-IsCandleTable "t1" (hour_candle 3_600_000 0 true) nothing refl
        (record { ids = tt; before_next = tt; keys = tt; prices = tt }))

load_candles-IsAscending_example :
    IsAscending (load_candles (λ t. 120) 7_200_000 two_hours.rows h1)
    × All
        (λ c. HasOrder c × (earliest h1 7_200_000 ≤ c.open_time))
        (load_candles (λ t. 120) 7_200_000 two_hours.rows h1)
load_candles-IsAscending_example =
    load_candles-IsAscending (λ t. 120) 7_200_000 two_hours h1 two_hours-IsCandleTable
