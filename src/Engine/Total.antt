-- ===== src/Engine/Total.antt =====
-- packages/trading-core/src/engine.ts: `analyze` and the nulls it reads fields of.
use mmxm.Prelude.{
  ℕ, ◌*◌, ◌≤◌, ◌<◌, ◌≡◌, ◌≢◌, refl, false, ◌||◌, some, List, [], String, arith, ltb, length, first,
  ◌⊎◌,
}
use mmxm.Prelude.Loops.{last_of_length}
use mmxm.Double.{Double}
use mmxm.Types.{
  m15, m5, Candle, MmxmAnalysisInput, MmxmStrategyConfig, Direction, SignalReason, TakeProfit,
}
use mmxm.Measure.{closed_only}
use mmxm.Measure.NoRepaint.{last-atr}
use mmxm.Bias.Window.{dealing_range-some, dealing_range-none}
use mmxm.Checks.{Check, direction_of}
use mmxm.Plan.{entry_zone}
use mmxm.Plan.Targets.{Shares, fallback, one, two, three, take_profits_of-Shares}
use mmxm.Engine.{Market, atr_now, read_market, plan_setup, analyze}
use mmxm.Engine.Outcome.{
  thrown, no_entry_zone, stale_entry_zone, zero_risk, rr_too_low, confidence_low,
  insufficient_candles, atr_not_ready, no_model, bind_total, unless_total, need_total,
  non_null_total, non_null_thrown, unless, need,
}

module _ {W : Type 0} ⦃d : Double W⦄ where
  first_of_Shares :
      (ts : List (TakeProfit W)) → Shares ts → (t : TakeProfit W) × (first ts ≡ some t)
  first_of_Shares _ (fallback {p}) = (_, refl)
  first_of_Shares _ (one {t} e) = (t, refl)
  first_of_Shares _ (two {t} e) = (t, refl)
  first_of_Shares _ (three {t} e) = (t, refl)

  plan_setup-total :
      (cfg : MmxmStrategyConfig W) (m : Market W) (dir : Direction) (checks : List Check)
      (reasons : List SignalReason)
      → plan_setup cfg m dir checks reasons ≢ thrown
  unfolding plan_setup
  plan_setup-total cfg m dir checks reasons =
      need_total (entry_zone m.evidence dir) reasons no_entry_zone _ λ zone.
        unless_total _ reasons stale_entry_zone _ λ _. unless_total _ reasons zero_risk _ λ _.
          let (t, found) = first_of_Shares _ (take_profits_of-Shares dir _ m.price m.liq m.range) in
          non_null_total _ t _ found (
            unless_total _ reasons rr_too_low _
              λ _. unless_total _ reasons confidence_low _ λ _. λ e. cc)

  module _ (input : MmxmAnalysisInput W) (now : ℕ) where
    abbrev c15 : List (Candle W)
    c15 = closed_only (input.candles m15)

    abbrev c5 : List (Candle W)
    c5 = closed_only (input.candles m5)

    enough_m15 : (ltb (length c15) 30 || ltb (length c5) 50) ≡ false → 30 ≤ length c15
    enough_m15 e = ground arith

    read_market-total :
        (input.config.max_setup_age_candles_m15 ≡ 0) ⊎ (3 ≤ input.config.max_setup_age_candles_m15)
        → read_market input now ≢ thrown
    unfolding read_market
    read_market-total h = unless_total _ [] insufficient_candles _ λ few.
        need_total _ [] atr_not_ready _ λ a15. need_total _ [] atr_not_ready _ λ a5.
          let long = enough_m15 few in
          let (dr, wide) =
            dealing_range-some (input.config.max_setup_age_candles_m15 * 4) (input.candles m15)
              (omega arith) (omega arith) in
          let (c, found) = last_of_length c15 (omega arith) in
          non_null_total _ dr _ wide (non_null_total _ c _ found (λ e. cc))

    -- With a setup window of one or two candles it throws once the candles and their ATR are there.
    read_market-thrown :
        0 < input.config.max_setup_age_candles_m15
        → input.config.max_setup_age_candles_m15 < 3
        → (ltb (length c15) 30 || ltb (length c5) 50) ≡ false
        → (a15 a5 : W) → atr_now c15 input.config.atr_period ≡ some a15
        → atr_now c5 input.config.atr_period ≡ some a5
        → read_market input now ≡ thrown
    unfolding read_market unless need
    read_market-thrown low high long a15 a5 ready15 ready5 =
        rw (long, ready15, ready5, unless, need)
          (non_null_thrown _ _ (
            dealing_range-none (input.config.max_setup_age_candles_m15 * 4) (input.candles m15)
              (omega arith) (omega arith)))

  -- `analyze` does not throw if the setup window is 0 or at least 3 candles.
  pub analyze-total :
      (input : MmxmAnalysisInput W) (version : String) (now : ℕ) (uuid : String)
      → (input.config.max_setup_age_candles_m15 ≡ 0) ⊎ (3 ≤ input.config.max_setup_age_candles_m15)
      → analyze input version now uuid ≢ thrown
  unfolding analyze
  analyze-total input version now uuid h =
      bind_total (read_market input now) _ (read_market-total input now h) λ m _.
        need_total _ [] no_model _ λ model. unless_total _ _ _ _ λ _.
          bind_total _ _ (plan_setup-total input.config m (direction_of model) _ _) λ s _. λ e. cc

  atr_now-ready :
      (cs : List (Candle W)) (period : ℕ)
      → period < length cs
      → (a : W) × (atr_now cs period ≡ some a)
  unfolding atr_now
  atr_now-ready cs period h = let (a, e) = last-atr cs period h in (a, rw (e, atr_now) refl)

  -- With a setup window of one or two candles `analyze` throws for every input that has 30 closed
  -- M15 candles and 50 closed M5 candles, the ATR's period being below 30: the window has no
  -- dealing range.
  pub analyze-thrown :
      (input : MmxmAnalysisInput W) (version : String) (now : ℕ) (uuid : String)
      → 0 < input.config.max_setup_age_candles_m15
      → input.config.max_setup_age_candles_m15 < 3
      → input.config.atr_period < 30
      → 30 ≤ length (closed_only (input.candles m15))
      → 50 ≤ length (closed_only (input.candles m5))
      → analyze input version now uuid ≡ thrown
  unfolding analyze
  analyze-thrown input version now uuid low high period long15 long5 =
      let (a15, ready15) =
        atr_now-ready (closed_only (input.candles m15)) input.config.atr_period (omega arith) in
      let (a5, ready5) =
        atr_now-ready (closed_only (input.candles m5)) input.config.atr_period (omega arith) in
      let long : (ltb (length (closed_only (input.candles m15))) 30
            || ltb (length (closed_only (input.candles m5))) 50)
          ≡ false =
        ground arith in
      rw (read_market-thrown input now low high long a15 a5 ready15 ready5)
