-- ===== src/Types/Config.antt =====
-- packages/types/src/signal.ts: the strategy's configuration, its defaults, and the engine's input.
use mmxm.Prelude.{ℕ, Option, none, List}
use mmxm.Types.Core.{Timeframe, m1, m5, m15, Candle}
use mmxm.Double.{Double}

-- The counts of candles and bars are whole numbers, all else is a `number`.
pub record MmxmStrategyConfig (W : Type 0) : Type 0 where
  pub setup_timeframe : Timeframe
  pub confirmation_timeframe : Timeframe
  pub precision_timeframe : Timeframe
  pub atr_period : ℕ
  pub pivot_left_bars : ℕ
  pub pivot_right_bars : ℕ
  pub minimum_displacement_body_atr : W
  pub minimum_displacement_range_atr : W
  pub minimum_fvg_atr : W
  pub equal_high_low_tolerance_atr : W
  pub sweep_penetration_atr : W
  pub structure_break_buffer_atr : W
  pub stop_loss_buffer_atr : W
  pub minimum_confidence : W
  pub minimum_risk_reward : W
  pub maximum_spread_points : Option ℕ
  pub maximum_signal_age_minutes : ℕ
  pub max_setup_age_candles_m15 : ℕ
  pub max_confirmation_age_candles_m5 : ℕ

abbrev pub default_strategy_config : {W : Type 0} ⦃d : Double W⦄ → MmxmStrategyConfig W
default_strategy_config ⦃d⦄ = record {
  setup_timeframe = m15;
  confirmation_timeframe = m5;
  precision_timeframe = m1;
  atr_period = 14;
  pivot_left_bars = 3;
  pivot_right_bars = 3;
  minimum_displacement_body_atr = d.lit 12 1;
  minimum_displacement_range_atr = d.lit 18 1;
  minimum_fvg_atr = d.lit 25 2;
  equal_high_low_tolerance_atr = d.lit 15 2;
  sweep_penetration_atr = d.lit 1 1;
  structure_break_buffer_atr = d.lit 5 2;
  stop_loss_buffer_atr = d.lit 5 1;
  minimum_confidence = d.lit 75 0;
  minimum_risk_reward = d.lit 20 1;
  maximum_spread_points = none;
  maximum_signal_age_minutes = 240;
  max_setup_age_candles_m15 = 12;
  max_confirmation_age_candles_m5 = 24;
}

-- `candles` maps each timeframe to its candles, oldest first.
pub record MmxmAnalysisInput (W : Type 0) : Type 0 where
  pub candles : Timeframe → List (Candle W)
  pub config : MmxmStrategyConfig W
