-- ===== src/Checks/Laws.antt =====
-- packages/trading-core/src/engine.ts: the choice of the model, the checks and their weights.
use mmxm.Prelude.{
  ℕ, ◌+◌, ◌≡◌, refl, Bool, true, false, ◌||◌, some, List, [], ◌∷◌, arith, ltb, if◌then◌else◌,
  length, All, Bool-cases, inl, inr, foldl, ◌∙◌,
}
use mmxm.Double.{Double}
use mmxm.Types.{
  Bias, bullish, bearish, neutral, Direction, MmxmModel, market_maker_buy_model,
  market_maker_sell_model, MmxmStrategyConfig,
}
use mmxm.Checks.{
  choose_model, direction_of, if_long, Check, Evidence, swept_low, swept_high, bias_check,
  sweep_check, displacement_check, structure_check, zone_check, discount_check, all_checks,
  failed_codes, total_weight,
}

-- A model is chosen only with the bias of its own direction and with a swept level.
pub choose_model_lem :
    (bias : Bias) (low high : Bool) (model : MmxmModel)
    → choose_model bias low high ≡ some model
    → (bias ≡ if_long (direction_of model) bullish bearish) × ((low || high) ≡ true)
unfolding choose_model
choose_model_lem bullish low high market_maker_buy_model e = ground arith
choose_model_lem bullish low high market_maker_sell_model e = ground arith
choose_model_lem bearish low high market_maker_buy_model e = ground arith
choose_model_lem bearish low high market_maker_sell_model e = ground arith
choose_model_lem neutral low high model e = cc

-- With no failed code every check has passed.
pub passed_of_failed :
    (checks : List Check)
    → ltb 0 (length (failed_codes checks)) ≡ false
    → All (λ c. c.ok ≡ true) checks
unfolding failed_codes
passed_of_failed [] e = tt
passed_of_failed (c ∷ cs) e = elim (Bool-cases c.ok) [
  | inl h ↦ (h, passed_of_failed cs (ground arith))
  | inr h ↦ absurd (ground arith)
]

abbrev add_weight : ℕ → Check → ℕ
add_weight s c = s + (if c.ok then c.weight else 0)

foldl-add_weight :
    (checks : List Check) (s : ℕ)
    → All (λ c. c.ok ≡ true) checks
    → foldl add_weight s checks ≡ foldl (λ t c. t + c.weight) s checks
foldl-add_weight [] s h = refl
foldl-add_weight (c ∷ cs) s (h, hs) =
    let same : add_weight s c ≡ s + c.weight = ground arith in
    rw same (foldl-add_weight cs (s + c.weight) hs)

module _ {W : Type 0} ⦃d : Double W⦄ (cfg : MmxmStrategyConfig W) (e : Evidence W) where
  -- The check of bias or zone and the check of the sweep hold for every model that is chosen.
  pub first_checks_pass :
      (model : MmxmModel)
      → choose_model e.bias (swept_low e) (swept_high e) ≡ some model
      → ((bias_check e (direction_of model)).ok ≡ true)
        × ((sweep_check e (direction_of model)).ok ≡ true)
  unfolding bias_check sweep_check
  first_checks_pass market_maker_buy_model h =
      let (same, any_swept) =
        choose_model_lem e.bias (swept_low e) (swept_high e) market_maker_buy_model h in
      (rw same refl, any_swept)
  first_checks_pass market_maker_sell_model h =
      let (same, any_swept) =
        choose_model_lem e.bias (swept_low e) (swept_high e) market_maker_sell_model h in
      (rw same refl, any_swept)

  weights :
      (dir : Direction)
      → foldl (λ t c. t + c.weight) 0 (all_checks cfg e dir)
        ≡ (if if_long dir e.in_discount e.in_premium then 100 else 90)
  unfolding all_checks bias_check sweep_check displacement_check structure_check zone_check
      discount_check
  weights dir = elim (Bool-cases (if_long dir e.in_discount e.in_premium)) [
    | inl right ↦ rw right
    | inr wrong ↦ rw wrong
  ]

  -- Six passed checks weigh 90, and 10 more on the right side of the dealing range.
  pub total_weight_passed :
      (dir : Direction)
      → All (λ c. c.ok ≡ true) (all_checks cfg e dir)
      → total_weight (all_checks cfg e dir)
        ≡ (if if_long dir e.in_discount e.in_premium then 100 else 90)
  unfolding total_weight
  total_weight_passed dir h = foldl-add_weight (all_checks cfg e dir) 0 h ∙ weights dir
