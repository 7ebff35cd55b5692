-- ===== src/Types/Core.antt =====
-- packages/types/src/core.ts. A time is its number of milliseconds since 1970: the source's ISO
-- strings come from `toISOString` and are only compared, stored and turned back into such numbers.
use mmxm.Prelude.{ℕ, Bool, Option, List, [], ◌∷◌}

pub data Timeframe : Type 0 where
  m1 m5 m15 h1 h4 d1 : Timeframe

abbrev pub timeframes : List Timeframe
timeframes = m1 ∷ m5 ∷ m15 ∷ h1 ∷ h4 ∷ d1 ∷ []

abbrev pub tf_seconds : Timeframe → ℕ
tf_seconds m1 = 60
tf_seconds m5 = 300
tf_seconds m15 = 900
tf_seconds h1 = 3600
tf_seconds h4 = 14400
tf_seconds d1 = 86400

pub record Candle (W : Type 0) : Type 0 where
  pub open_time : ℕ
  pub close_time : ℕ
  pub opening : W
  pub high : W
  pub low : W
  pub close : W
  pub tick_volume : W
  pub real_volume : Option W
  pub spread : ℕ
  pub is_closed : Bool
  pub revision : ℕ
