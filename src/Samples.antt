-- ===== src/Samples.antt =====
-- Market data for the tests, in fixed-point numbers.
pub mod Feed
pub mod Purchase
use mmxm.Prelude.{ℕ, zero, suc, ◌*◌, ◌+◌, true, none, List, [], ◌∷◌}
use mmxm.Prelude.Int.{pos}
use mmxm.Double.Fixed.{Fixed, fixed_double}
use mmxm.Types.{Candle, MmxmStrategyConfig, default_strategy_config}

-- A whole price.
abbrev pub price : ℕ → Fixed
price n = pos (n * 1000)

-- A closed candle with its opening time, in minutes.
abbrev pub candle : ℕ → ℕ → ℕ → ℕ → ℕ → Candle Fixed
candle minute opening high low close = record {
  open_time = minute * 60_000;
  close_time = (minute + 1) * 60_000;
  opening = price opening;
  high = price high;
  low = price low;
  close = price close;
  tick_volume = price 1;
  real_volume = none;
  spread = 20;
  is_closed = true;
  revision = 0;
}

-- Candles that do not move.
abbrev pub flat : ℕ → List (Candle Fixed)
flat zero = []
flat (suc n) = candle n 2000 2001 1999 2000 ∷ flat n

-- The default configuration with a setup window of one candle.
abbrev pub narrow_config : MmxmStrategyConfig Fixed
narrow_config = record default_strategy_config { max_setup_age_candles_m15 = 1 }

-- A rise, a high, a fall below the start and a recovery.
abbrev pub swing : List (Candle Fixed)
swing =
    candle 0 2000 2004 1999 2003
    ∷ candle 5 2003 2012 2002 2010
    ∷ candle 10 2010 2011 2001 2002
    ∷ candle 15 2002 2003 1990 1992
    ∷ candle 20 1992 2006 1991 2005
    ∷ candle 25 2005 2020 2004 2019
    ∷ []

abbrev pub more : List (Candle Fixed)
more = candle 30 2019 2021 2011 2013 ∷ candle 35 2013 2015 2005 2006 ∷ []
