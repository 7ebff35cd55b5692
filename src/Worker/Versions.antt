-- ===== src/Worker/Versions.antt =====
-- apps/worker/src/analyzer.ts, `loadActiveConfig`: the configuration of the newest active version, over
-- the defaults. The names of the symbol and of the higher timeframes, which are fixed, are left out.
use mmxm.Prelude.{ℕ, Bool, Option, none, some, List, [], ◌∷◌, String, ltb, if◌then◌else◌, filter}
use mmxm.Double.{Double}
use mmxm.Types.{Timeframe, MmxmStrategyConfig, default_strategy_config}

-- `Partial<MmxmStrategyConfig>`: the keys that a stored configuration has.
pub record PartialConfig (W : Type 0) : Type 0 where
  pub setup_timeframe : Option Timeframe
  pub confirmation_timeframe : Option Timeframe
  pub precision_timeframe : Option Timeframe
  pub atr_period : Option ℕ
  pub pivot_left_bars : Option ℕ
  pub pivot_right_bars : Option ℕ
  pub minimum_displacement_body_atr : Option W
  pub minimum_displacement_range_atr : Option W
  pub minimum_fvg_atr : Option W
  pub equal_high_low_tolerance_atr : Option W
  pub sweep_penetration_atr : Option W
  pub structure_break_buffer_atr : Option W
  pub stop_loss_buffer_atr : Option W
  pub minimum_confidence : Option W
  pub minimum_risk_reward : Option W
  pub maximum_spread_points : Option (Option ℕ)
  pub maximum_signal_age_minutes : Option ℕ
  pub max_setup_age_candles_m15 : Option ℕ
  pub max_confirmation_age_candles_m5 : Option ℕ

pub record StrategyVersion (W : Type 0) : Type 0 where
  pub id : String
  pub config : PartialConfig W
  pub is_active : Bool
  pub created_at : ℕ

abbrev given : {A : Type 0} → Option A → A → A
given none a = a
given (some b) a = b

module _ {W : Type 0} where
  -- `{ ...base, ...p }`
  pub spread_over : MmxmStrategyConfig W → PartialConfig W → MmxmStrategyConfig W
  spread_over c p = record {
    setup_timeframe = given p.setup_timeframe c.setup_timeframe;
    confirmation_timeframe = given p.confirmation_timeframe c.confirmation_timeframe;
    precision_timeframe = given p.precision_timeframe c.precision_timeframe;
    atr_period = given p.atr_period c.atr_period;
    pivot_left_bars = given p.pivot_left_bars c.pivot_left_bars;
    pivot_right_bars = given p.pivot_right_bars c.pivot_right_bars;
    minimum_displacement_body_atr =
        given p.minimum_displacement_body_atr c.minimum_displacement_body_atr;
    minimum_displacement_range_atr =
        given p.minimum_displacement_range_atr c.minimum_displacement_range_atr;
    minimum_fvg_atr = given p.minimum_fvg_atr c.minimum_fvg_atr;
    equal_high_low_tolerance_atr =
        given p.equal_high_low_tolerance_atr c.equal_high_low_tolerance_atr;
    sweep_penetration_atr = given p.sweep_penetration_atr c.sweep_penetration_atr;
    structure_break_buffer_atr = given p.structure_break_buffer_atr c.structure_break_buffer_atr;
    stop_loss_buffer_atr = given p.stop_loss_buffer_atr c.stop_loss_buffer_atr;
    minimum_confidence = given p.minimum_confidence c.minimum_confidence;
    minimum_risk_reward = given p.minimum_risk_reward c.minimum_risk_reward;
    maximum_spread_points = given p.maximum_spread_points c.maximum_spread_points;
    maximum_signal_age_minutes = given p.maximum_signal_age_minutes c.maximum_signal_age_minutes;
    max_setup_age_candles_m15 = given p.max_setup_age_candles_m15 c.max_setup_age_candles_m15;
    max_confirmation_age_candles_m5 =
        given p.max_confirmation_age_candles_m5 c.max_confirmation_age_candles_m5;
  }

  -- `orderBy: { createdAt: 'desc' }` and the first row.
  abbrev pub newest_version_of : StrategyVersion W → List (StrategyVersion W) → StrategyVersion W
  newest_version_of a [] = a
  newest_version_of a (b ∷ rows) =
      if ltb a.created_at b.created_at then newest_version_of b rows else newest_version_of a rows

  abbrev pub newest_version : List (StrategyVersion W) → Option (StrategyVersion W)
  newest_version [] = none
  newest_version (a ∷ rows) = some (newest_version_of a rows)

module _ {W : Type 0} ⦃d : Double W⦄ where
  abbrev pub config_of : Option (StrategyVersion W) → MmxmStrategyConfig W × Option String
  config_of none = (default_strategy_config, none)
  config_of (some v) = (spread_over default_strategy_config v.config, some v.id)

  -- The configuration, and the id of the version if one is active.
  pub load_active_config : List (StrategyVersion W) → MmxmStrategyConfig W × Option String
  load_active_config rows = config_of (newest_version (filter (λ v. v.is_active) rows))
