-- ===== src/Engine/Tests.antt =====
-- The theorems on `analyze` at samples.
use mmxm.Prelude.{refl, Bool, true, false, ◌≤◌, ◌≡◌, ◌≢◌, inr, length, arith}
use mmxm.Double.Fixed.{Fixed, fixed_double}
use mmxm.Types.{XauusdSignal, MmxmAnalysisInput, default_strategy_config}
use mmxm.Engine.{
  atr_now, liquidity_of, swept_of, is_swept, read_market, mss_bonus, confidence_of, plan_setup,
  rules_of, signal_of, analyze,
}
use mmxm.Engine.Outcome.{Run, go, stop, thrown, unless, need, non_null}
use mmxm.Engine.Signals.{IsSound, analyze-IsSound, analyze_confidence}
use mmxm.Measure.{
  true_range, true_ranges, smooth, atr_from, atr_series, atr, body, range, is_bullish, is_bearish,
  closed_only,
}
use mmxm.Pivots.{scan, pivots_of, pivots_at, find_pivots}
use mmxm.Structure.{
  by_index, infer_by, infer_trend, break_from, breaks_origin, break_kind, structure_from,
  from_sorted, detect_structure,
}
use mmxm.Zones.{
  gaps_at, gaps_from, mitigate, detect_fvgs, block_at, order_block_of, detect_order_blocks,
}
use mmxm.Liquidity.{
  day_start, day_of_week, in_window, highest, lowest, session_levels, detect_session_levels,
  period_levels, detect_prev_day_week_levels, gather, groups_from, find_equal_levels,
  pivots_to_liquidity, decides, interaction_from, classify_level_interaction,
}
use mmxm.Bias.{
  combine, dealing_range, bias_of_change, bias_between, bias_of, htf_bias, is_displacement,
  displacements_from, displacement_indices,
}
use mmxm.Checks.{
  choose_model, swept_low, swept_high, bias_check, sweep_check, disp_colour, displacement_check,
  structure_check, zone_check, discount_check, all_checks, reasons_of, failed_codes, total_weight,
}
use mmxm.Plan.{
  entry_zone, zone_dist, max_zone_dist, preferred_entry_of, stop_loss_of, is_opposing, nearer,
  opposing_levels, targets_from, take_profits_of, reward_for_risk,
}
use mmxm.Engine.Total.{analyze-total, analyze-thrown}
use mmxm.Samples.Purchase.{purchase_market}
use mmxm.Samples.{flat, narrow_config}

abbrev flat_market : MmxmAnalysisInput Fixed
flat_market = record { candles = λ tf. flat 50; config = default_strategy_config }

abbrev narrow_market : MmxmAnalysisInput Fixed
narrow_market = record { candles = λ tf. flat 50; config = narrow_config }

analyze-total_example : analyze flat_market "v1" 0 "id" ≢ thrown
analyze-total_example = analyze-total flat_market "v1" 0 "id" (inr (omega arith))

flat-length : 30 ≤ length (closed_only (flat 50))
unfolding closed_only
flat-length = omega arith

flat-length5 : 50 ≤ length (closed_only (flat 50))
unfolding closed_only
flat-length5 = omega arith

analyze-thrown_example : analyze narrow_market "v1" 0 "id" ≡ thrown
analyze-thrown_example =
    analyze-thrown narrow_market "v1" 0 "id" (omega arith) (omega arith) (omega arith) flat-length
      flat-length5

abbrev is_go : {A : Type 0} → Run A → Bool
is_go (go _) = true
is_go _ = false

emitted : {A : Type 0} (r : Run A) → is_go r ≡ true → (a : A) × (r ≡ go a)
emitted (go a) e = (a, refl)
emitted (stop x) e = cc
emitted thrown e = cc

abbrev purchase_run : Run (XauusdSignal Fixed)
purchase_run = analyze purchase_market "v1" 864_000_000 "id"

-- The engine finds a signal in this market.
purchase_found : is_go purchase_run ≡ true
unfolding true_range true_ranges smooth atr_from atr_series atr body range is_bullish is_bearish
    closed_only scan pivots_of pivots_at find_pivots by_index infer_by infer_trend break_from
    breaks_origin break_kind structure_from from_sorted detect_structure gaps_at gaps_from mitigate
    detect_fvgs block_at order_block_of detect_order_blocks day_start day_of_week in_window highest
    lowest session_levels detect_session_levels period_levels detect_prev_day_week_levels gather
    groups_from find_equal_levels pivots_to_liquidity decides interaction_from
    classify_level_interaction combine dealing_range bias_of_change bias_between bias_of htf_bias
    is_displacement displacements_from displacement_indices choose_model swept_low swept_high
    bias_check sweep_check disp_colour displacement_check structure_check zone_check discount_check
    all_checks reasons_of failed_codes total_weight entry_zone zone_dist max_zone_dist
    preferred_entry_of stop_loss_of is_opposing nearer opposing_levels targets_from take_profits_of
    reward_for_risk atr_now liquidity_of swept_of is_swept read_market mss_bonus confidence_of
    plan_setup rules_of signal_of analyze unless need non_null
purchase_found = refl

abbrev purchase : (s : XauusdSignal Fixed) × (purchase_run ≡ go s)
purchase = emitted purchase_run purchase_found

analyze-IsSound_example : IsSound default_strategy_config (purchase.0)
analyze-IsSound_example =
    analyze-IsSound purchase_market "v1" 864_000_000 "id" (purchase.0) (purchase.1)

analyze_confidence_example :
    (90 ≤ (purchase.0).confidence_score) × ((purchase.0).confidence_score ≤ 100)
analyze_confidence_example =
    analyze_confidence purchase_market "v1" 864_000_000 "id" (purchase.0) (purchase.1)
