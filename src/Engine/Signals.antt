-- ===== src/Engine/Signals.antt =====
-- packages/trading-core/src/engine.ts: emitted signals, in terms of the signal itself.
use Prim.Native.Nat.{min}
use mmxm.Prelude.{ℕ, ◌+◌, ◌≤◌, ◌≡◌, refl, false, some, String, arith, first}
use mmxm.Double.{Double, of_ℕ}
use mmxm.Types.{
  MmxmAnalysisInput, MmxmStrategyConfig, XauusdSignal, bullish, bearish, TakeProfit, StructureKind,
  bos, choch, mss,
}
use mmxm.Checks.{direction_of, if_long, all_checks, total_weight, swept_low, swept_high}
use mmxm.Checks.Laws.{choose_model_lem, total_weight_passed}
use mmxm.Plan.{reward_for_risk}
use mmxm.Plan.Targets.{Shares, take_profits_of-Shares}
use mmxm.Engine.{mss_bonus, bonus_of, confidence_of, signal_of, analyze}
use mmxm.Engine.Outcome.{go}
use mmxm.Engine.Safety.{IsMade, analyze-IsMade}

module _ {W : Type 0} ⦃d : Double W⦄ where
  open d use {sub, abs, lt, le}

  -- The gates of `analyze`, read off a signal.
  pub record IsSound (cfg : MmxmStrategyConfig W) (s : XauusdSignal W) : Type 0 where
    pub direction : s.direction ≡ direction_of s.mmxm_model
    pub bias : s.higher_timeframe_bias ≡ if_long s.direction bullish bearish
    pub risk_positive : le (abs (sub s.preferred_entry s.stop_loss)) (of_ℕ 0) ≡ false
    pub target : TakeProfit W
    pub first_target : first s.take_profits ≡ some target
    pub reward_enough :
        lt
          (reward_for_risk target.price s.preferred_entry (abs (sub s.preferred_entry s.stop_loss)))
          cfg.minimum_risk_reward
        ≡ false
    pub confident : lt (of_ℕ s.confidence_score) cfg.minimum_confidence ≡ false
    pub shares : Shares s.take_profits

  module _ (input : MmxmAnalysisInput W) (version : String) (now : ℕ) (uuid : String)
      (s : XauusdSignal W) where
    IsMade-IsSound : IsMade input version now uuid s → IsSound input.config s
    unfolding signal_of
    IsMade-IsSound made =
        let m = made.market in
        let p = made.planned in
        let dir = direction_of made.model in
        rw made.signal (record {
          direction = refl;
          bias =
              (choose_model_lem m.evidence.bias (swept_low m.evidence) (swept_high m.evidence)
                made.model made.chosen).0;
          risk_positive = p.risk_positive;
          target = p.target;
          first_target = p.first_target;
          reward_enough = rw p.reward at p.reward_enough;
          confident = p.confident;
          shares =
              rw p.targets
                (take_profits_of-Shares dir made.setup.preferred_entry m.price m.liq m.range);
        })

    -- A signal goes the way of its model with the bias of the higher timeframes; its risk is not
    -- zero, the reward of its first target reaches the configured multiple of the risk, its score
    -- reaches the configured confidence, and its targets close the shares that `Shares` lists.
    pub analyze-IsSound : analyze input version now uuid ≡ go s → IsSound input.config s
    analyze-IsSound e = IsMade-IsSound (analyze-IsMade input version now uuid s e)

    bonus-le : (k : StructureKind) → bonus_of k ≤ 10
    bonus-le bos = omega arith
    bonus-le choch = omega arith
    bonus-le mss = omega arith

    confidence_bounds : (w b : ℕ) → 90 ≤ w → (90 ≤ min 100 (w + b)) × (min 100 (w + b) ≤ 100)
    confidence_bounds w b h = omega arith

    -- The score of an emitted signal is never below 90 and never above 100, whatever the
    -- configuration.
    pub analyze_confidence :
        analyze input version now uuid ≡ go s
        → (90 ≤ s.confidence_score) × (s.confidence_score ≤ 100)
    unfolding confidence_of signal_of
    analyze_confidence e =
        let made = analyze-IsMade input version now uuid s e in
        let m = made.market in
        let dir = direction_of made.model in
        let weight = total_weight (all_checks input.config m.evidence dir) in
        let total = total_weight_passed input.config m.evidence dir made.passed in
        let enough : 90 ≤ weight = ground arith in
        let bounds = confidence_bounds weight (mss_bonus m.evidence) enough in
        rw (made.signal) (rw made.planned.confidence bounds)
