-- ===== src/Engine/Safety.antt =====
-- packages/trading-core/src/engine.ts: emitted signals and the run that made them.
use mathlib.Core.Path.{subst}
use mmxm.Prelude.{ℕ, ◌≡◌, refl, sym, true, false, some, List, [], String, first, All}
use mmxm.Double.{Double, of_ℕ}
use mmxm.Types.{
  MmxmAnalysisInput, MmxmStrategyConfig, XauusdSignal, Direction, MmxmModel, TakeProfit,
  SignalReason,
}
use mmxm.Checks.{
  choose_model, direction_of, Check, swept_low, swept_high, all_checks, reasons_of, failed_codes,
}
use mmxm.Checks.Laws.{passed_of_failed}
use mmxm.Plan.{
  entry_zone, zone_dist, max_zone_dist, preferred_entry_of, stop_loss_of, take_profits_of,
  reward_for_risk,
}
use mmxm.Engine.{Market, Setup, read_market, confidence_of, plan_setup, signal_of, analyze}
use mmxm.Engine.Outcome.{
  go, no_model, failed_checks, no_entry_zone, stale_entry_zone, zero_risk, rr_too_low,
  confidence_low, >>=-eq-go, unless-eq-go, need-eq-go, non_null-eq-go, go-injective,
}

module _ {W : Type 0} ⦃d : Double W⦄ where
  open d use {sub, mul, abs, lt, le}

  -- The tests that a setup has passed, each with the numbers of the setup itself.
  pub record IsPlanned (cfg : MmxmStrategyConfig W) (m : Market W) (dir : Direction)
      (checks : List Check) (s : Setup W) : Type 0 where
    pub target : TakeProfit W
    pub zone : entry_zone m.evidence dir ≡ some (s.entry_min, s.entry_max)
    pub reachable :
        lt (max_zone_dist cfg m.atr_now15) (zone_dist dir s.entry_min s.entry_max m.price) ≡ false
    pub entry : s.preferred_entry ≡ preferred_entry_of s.entry_min s.entry_max
    pub stop_loss :
        s.stop_loss
        ≡ stop_loss_of dir s.entry_min s.entry_max (mul cfg.stop_loss_buffer_atr m.atr_now5)
    pub risk_positive : le (abs (sub s.preferred_entry s.stop_loss)) (of_ℕ 0) ≡ false
    pub targets : s.take_profits ≡ take_profits_of dir s.preferred_entry m.price m.liq m.range
    pub first_target : first s.take_profits ≡ some target
    pub reward :
        s.rr
        ≡ reward_for_risk target.price s.preferred_entry (abs (sub s.preferred_entry s.stop_loss))
    pub reward_enough : lt s.rr cfg.minimum_risk_reward ≡ false
    pub confidence : s.confidence ≡ confidence_of m.evidence checks
    pub confident : lt (of_ℕ s.confidence) cfg.minimum_confidence ≡ false

  plan_setup-IsPlanned :
      (cfg : MmxmStrategyConfig W) (m : Market W) (dir : Direction) (checks : List Check)
      (reasons : List SignalReason) (s : Setup W)
      → plan_setup cfg m dir checks reasons ≡ go s
      → IsPlanned cfg m dir checks s
  unfolding plan_setup
  plan_setup-IsPlanned cfg m dir checks reasons s e =
      let (zone, found, e1) = need-eq-go (entry_zone m.evidence dir) reasons no_entry_zone _ e in
      let (reachable, e2) = unless-eq-go _ reasons stale_entry_zone _ e1 in
      let (positive, e3) = unless-eq-go _ reasons zero_risk _ e2 in
      let (tp, first_tp, e4) = non_null-eq-go _ _ e3 in
      let (enough, e5) = unless-eq-go _ reasons rr_too_low _ e4 in
      let (confident, e6) = unless-eq-go _ reasons confidence_low _ e5 in
      subst (IsPlanned cfg m dir checks) (go-injective e6) (record {
        target = tp;
        zone = found;
        reachable = reachable;
        entry = refl;
        stop_loss = refl;
        risk_positive = positive;
        targets = refl;
        first_target = first_tp;
        reward = refl;
        reward_enough = enough;
        confidence = refl;
        confident = confident;
      })

  -- How a signal came about: the market that was read, the model, the passed checks and the setup.
  pub record IsMade (input : MmxmAnalysisInput W) (version : String) (now : ℕ) (uuid : String)
      (s : XauusdSignal W) : Type 0 where
    pub market : Market W
    pub model : MmxmModel
    pub setup : Setup W
    pub read : read_market input now ≡ go market
    pub chosen :
        choose_model market.evidence.bias (swept_low market.evidence) (swept_high market.evidence)
        ≡ some model
    pub passed :
        All (λ c. c.ok ≡ true) (all_checks input.config market.evidence (direction_of model))
    pub planned :
        IsPlanned input.config market
          (direction_of model)
          (all_checks input.config market.evidence (direction_of model))
          setup
    pub signal :
        s
        ≡ signal_of input version now uuid market model
            (reasons_of (all_checks input.config market.evidence (direction_of model)))
            setup

  pub analyze-IsMade :
      (input : MmxmAnalysisInput W) (version : String) (now : ℕ) (uuid : String)
      (s : XauusdSignal W)
      → analyze input version now uuid ≡ go s
      → IsMade input version now uuid s
  unfolding analyze
  analyze-IsMade input version now uuid s e =
      let (m, read, e1) = >>=-eq-go (read_market input now) _ e in
      let (model, chosen, e2) = need-eq-go _ [] no_model _ e1 in
      let checks = all_checks input.config m.evidence (direction_of model) in
      let (none_failed, e3) =
        unless-eq-go _ (reasons_of checks) (failed_checks (failed_codes checks)) _ e2 in
      let (setup, made, e4) =
        >>=-eq-go (plan_setup input.config m (direction_of model) checks (reasons_of checks)) _
          e3 in
      record {
        market = m;
        model = model;
        setup = setup;
        read = read;
        chosen = chosen;
        passed = passed_of_failed checks none_failed;
        planned =
            plan_setup-IsPlanned input.config m (direction_of model) checks (reasons_of checks)
              setup made;
        signal = sym (go-injective e4);
      }
