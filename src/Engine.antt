-- ===== src/Engine.antt =====
-- packages/trading-core/src/engine.ts: `analyze`, from the candles to a signal or a refusal.
pub mod Few
pub mod Outcome
pub mod Safety
pub mod Total
pub mod Signals
mod Tests
use Prim.Native.Nat.{min}
use mmxm.Prelude.{
  ℕ, ◌+◌, ◌*◌, Bool, true, false, not, ◌&&◌, ◌||◌, Option, none, some, List, [], ◌∷◌, ◌++◌, String,
  ltb, if◌then◌else◌, length, filter, flat_map, last, first, slice_last,
}
use mmxm.Double.{Double, of_ℕ}
use mmxm.Types.{
  m1, m5, m15, h1, h4, Candle, MmxmStrategyConfig, MmxmAnalysisInput, XauusdSignal, confirmed,
  SignalReason, ReasonCode, Direction, long, short, LiquidityLevel, LiquidityState, swept,
  DealingRange, InvalidationRule, sl, ttl, close_below, close_above, expiry, StructureKind, mss,
  MmxmModel, TakeProfit,
}
use mmxm.Measure.{atr, closed_only}
use mmxm.Pivots.{find_pivots}
use mmxm.Structure.{detect_structure}
use mmxm.Zones.{detect_fvgs, detect_order_blocks}
use mmxm.Liquidity.{
  pivots_to_liquidity, detect_prev_day_week_levels, detect_session_levels,
  classify_level_interaction,
}
use mmxm.Bias.{dealing_range, htf_bias, displacement_indices}
use mmxm.Checks.{
  choose_model, direction_of, Check, Evidence, swept_low, swept_high, all_checks, reasons_of,
  failed_codes, total_weight, if_long,
}
use mmxm.Plan.{
  entry_zone, zone_dist, max_zone_dist, preferred_entry_of, stop_loss_of, take_profits_of,
  reward_for_risk,
}
use mmxm.Engine.Outcome.{
  Why, insufficient_candles, atr_not_ready, no_model, failed_checks, no_entry_zone,
  stale_entry_zone, zero_risk, rr_too_low, confidence_low, Refusal, Run, go, stop, thrown, ◌>>=◌,
  ◌>>◌, unless, need, non_null,
}

-- What the first part of `analyze` computes from the candles.
pub record Market (W : Type 0) : Type 0 where
  pub evidence : Evidence W
  pub atr_now15 : W
  pub atr_now5 : W
  pub range : DealingRange W
  pub price : W
  pub liq : List (LiquidityLevel W)

-- What the last part has settled when it comes to the signal.
pub record Setup (W : Type 0) : Type 0 where
  pub entry_min : W
  pub entry_max : W
  pub preferred_entry : W
  pub stop_loss : W
  pub take_profits : List (TakeProfit W)
  pub rr : W
  pub confidence : ℕ

pub is_swept : LiquidityState → Bool
is_swept swept = true
is_swept _ = false

abbrev pub bonus_of : StructureKind → ℕ
bonus_of mss = 10
bonus_of _ = 0

module _ {W : Type 0} ⦃d : Double W⦄ where
  open d use {sub, mul, div, abs, lt, le, round}

  -- `atrM15[atrM15.length - 1]`, null or undefined as `none`.
  pub atr_now : List (Candle W) → ℕ → Option W
  atr_now candles period = elim (last (atr candles period)) [ none ↦ none | some a ↦ a ]

  pub liquidity_of : MmxmStrategyConfig W → List (Candle W) → W → ℕ → List (LiquidityLevel W)
  liquidity_of cfg candles atr_now15 now =
      pivots_to_liquidity (find_pivots candles cfg.pivot_left_bars cfg.pivot_right_bars) m15
        cfg.equal_high_low_tolerance_atr atr_now15 now
      ++ (detect_prev_day_week_levels candles m15 now ++ detect_session_levels candles m15 now)

  -- The loop that collects the swept levels.
  pub swept_of :
      MmxmStrategyConfig W → List (Candle W) → W → List (LiquidityLevel W) → List (LiquidityLevel W)
  swept_of cfg candles atr_now15 = flat_map λ level.
      let (state, at) =
        classify_level_interaction level candles cfg.sweep_penetration_atr atr_now15 in
      if is_swept state then record level { swept_at = at } ∷ [] else []

  pub read_market : MmxmAnalysisInput W → ℕ → Run (Market W)
  read_market input now = do
    let cfg = input.config
    let c15 = closed_only (input.candles m15)
    let c5 = closed_only (input.candles m5)
    unless (ltb (length c15) 30 || ltb (length c5) 50) [] insufficient_candles
    atr_now15 ← need (atr_now c15 cfg.atr_period) [] atr_not_ready
    atr_now5 ← need (atr_now c5 cfg.atr_period) [] atr_not_ready
    let bias = htf_bias (input.candles h4) (input.candles h1)
    dr ← non_null (dealing_range (slice_last (cfg.max_setup_age_candles_m15 * 4) c15))
    latest ← non_null (last c15)
    let price = latest.close
    let liq = liquidity_of cfg c15 atr_now15 now
    let struct5 =
        detect_structure c5 (find_pivots c5 cfg.pivot_left_bars cfg.pivot_right_bars) m5
          cfg.structure_break_buffer_atr atr_now5
    let disp_idx =
        displacement_indices c15 (atr c15 cfg.atr_period) cfg.minimum_displacement_body_atr
          cfg.minimum_displacement_range_atr
    go (record {
      evidence = record {
        m15 = c15;
        m5 = c5;
        bias = bias;
        in_discount = lt price dr.equilibrium;
        in_premium = lt dr.equilibrium price;
        swept_levels = swept_of cfg c15 atr_now15 liq;
        last_struct = last struct5;
        last_disp = last disp_idx;
        fresh_fvgs = filter (λ f. not f.mitigated) (detect_fvgs c5 cfg.minimum_fvg_atr atr_now5);
        fresh_obs = filter (λ o. not o.mitigated) (detect_order_blocks c15 disp_idx);
      };
      atr_now15 = atr_now15;
      atr_now5 = atr_now5;
      range = dr;
      price = price;
      liq = liq;
    })

  -- `lastStruct?.kind === 'MSS' ? 10 : 0`
  pub mss_bonus : Evidence W → ℕ
  mss_bonus e = elim e.last_struct [ none ↦ 0 | some s ↦ bonus_of s.kind ]

  pub confidence_of : Evidence W → List Check → ℕ
  confidence_of e checks = min 100 (total_weight checks + mss_bonus e)

  -- The entry zone, the stop, the targets and their tests, with the reasons given so far.
  pub plan_setup :
      MmxmStrategyConfig W → Market W → Direction → List Check → List SignalReason → Run (Setup W)
  plan_setup cfg m dir checks reasons = do
    (entry_min, entry_max) ← need (entry_zone m.evidence dir) reasons no_entry_zone
    unless (lt (max_zone_dist cfg m.atr_now15) (zone_dist dir entry_min entry_max m.price)) reasons
        stale_entry_zone
    let preferred_entry = preferred_entry_of entry_min entry_max
    let stop_loss = stop_loss_of dir entry_min entry_max (mul cfg.stop_loss_buffer_atr m.atr_now5)
    let risk = abs (sub preferred_entry stop_loss)
    unless (le risk (of_ℕ 0)) reasons zero_risk
    let tps = take_profits_of dir preferred_entry m.price m.liq m.range
    tp1 ← non_null (first tps)
    let rr = reward_for_risk tp1.price preferred_entry risk
    unless (lt rr cfg.minimum_risk_reward) reasons rr_too_low
    let confidence = confidence_of m.evidence checks
    unless (lt (of_ℕ confidence) cfg.minimum_confidence) reasons confidence_low
    go (record {
      entry_min = entry_min;
      entry_max = entry_max;
      preferred_entry = preferred_entry;
      stop_loss = stop_loss;
      take_profits = tps;
      rr = rr;
      confidence = confidence;
    })

  pub rules_of : Direction → W → List (InvalidationRule W)
  rules_of dir stop_loss =
      record { code = sl; price = some stop_loss; condition = if_long dir close_below close_above }
      ∷ record { code = ttl; price = none; condition = expiry }
      ∷ []

  pub signal_of :
      MmxmAnalysisInput W
      → String
      → ℕ
      → String
      → Market W
      → MmxmModel
      → List SignalReason
      → Setup W
      → XauusdSignal W
  signal_of input strategy_version now uuid m model reasons s = record {
    id = uuid;
    direction = direction_of model;
    status = confirmed;
    mmxm_model = model;
    entry_min = s.entry_min;
    entry_max = s.entry_max;
    preferred_entry = s.preferred_entry;
    stop_loss = s.stop_loss;
    take_profits = s.take_profits;
    risk_reward_ratio = div (round (mul s.rr (of_ℕ 100))) (of_ℕ 100);
    confidence_score = s.confidence;
    higher_timeframe_bias = m.evidence.bias;
    setup_timeframe = m15;
    confirmation_timeframe = m5;
    precision_timeframe = m1;
    reasons = reasons;
    invalidation_rules = rules_of (direction_of model) s.stop_loss;
    detected_at = now;
    confirmed_at = some now;
    expires_at = now + input.config.maximum_signal_age_minutes * 60_000;
    strategy_version = strategy_version;
  }

  -- `now` and `uuid` are what the clock and `crypto.randomUUID` give.
  pub analyze : MmxmAnalysisInput W → String → ℕ → String → Run (XauusdSignal W)
  analyze input strategy_version now uuid = do
    m ← read_market input now
    model ←
        need (choose_model m.evidence.bias (swept_low m.evidence) (swept_high m.evidence)) []
          no_model
    let checks = all_checks input.config m.evidence (direction_of model)
    let reasons = reasons_of checks
    unless (ltb 0 (length (failed_codes checks))) reasons (failed_checks (failed_codes checks))
    s ← plan_setup input.config m (direction_of model) checks reasons
    go (signal_of input strategy_version now uuid m model reasons s)
