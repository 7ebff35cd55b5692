-- ===== src/Checks.antt =====
-- packages/trading-core/src/engine.ts, `analyze`: the choice of the model and the six checks.
pub mod Laws
use mmxm.Prelude.{
  ℕ, ◌+◌, ◌-◌, Bool, true, false, not, ◌&&◌, ◌||◌, Option, none, some, List, [], ◌∷◌, map, String,
  leb, if◌then◌else◌, length, get_elem?, filter, any, foldl,
}
use mmxm.Double.{Double}
use mmxm.Types.{
  Candle, Bias, bullish, bearish, neutral, Direction, long, short, MmxmModel,
  market_maker_buy_model, market_maker_sell_model, MmxmStrategyConfig, StructureEvent,
  StructureKind, bos, choch, mss, Side, bull, bear, Fvg, OrderBlock, LiquidityLevel, ReasonCode,
  htf_bias_or_zone, liquidity_swept, displacement, mss_choch, fvg_or_ob, premium_discount,
  EvidenceId, candle_id, level_id, SignalReason,
}
use mmxm.Measure.{is_bullish}
use mmxm.Liquidity.{is_high_side, is_low_side}

unfoldable pub choose_model : Bias → Bool → Bool → Option MmxmModel
choose_model bullish swept_low swept_high =
    if swept_low
    then some market_maker_buy_model
    else if swept_high
    then some market_maker_buy_model
    else none
choose_model bearish swept_low swept_high =
    if swept_high
    then some market_maker_sell_model
    else if swept_low
    then some market_maker_sell_model
    else none
choose_model neutral swept_low swept_high = none

abbrev pub direction_of : MmxmModel → Direction
direction_of market_maker_buy_model = long
direction_of market_maker_sell_model = short

abbrev pub if_long {ℓ} : {A : Type ℓ} → Direction → A → A → A
if_long long a b = a
if_long short a b = b

abbrev pub is_bias : Bias → Bias → Bool
is_bias bullish bullish = true
is_bias bearish bearish = true
is_bias neutral neutral = true
is_bias _ _ = false

abbrev pub same_side : Side → Side → Bool
same_side bull bull = true
same_side bear bear = true
same_side _ _ = false

-- 'BULLISH' for LONG, 'BEARISH' for SHORT
abbrev pub side_for : Direction → Side
side_for long = bull
side_for short = bear

abbrev pub is_turn : StructureKind → Bool
is_turn bos = false
is_turn _ = true

pub record Check : Type 0 where
  pub ok : Bool
  pub code : ReasonCode
  pub desc : String
  pub weight : ℕ
  pub evidence : List EvidenceId

-- What `analyze` has computed when it comes to the checks.
pub record Evidence (W : Type 0) : Type 0 where
  pub m15 : List (Candle W)
  pub m5 : List (Candle W)
  pub bias : Bias
  pub in_discount : Bool
  pub in_premium : Bool
  pub swept_levels : List (LiquidityLevel W)
  pub last_struct : Option (StructureEvent W)
  pub last_disp : Option ℕ
  pub fresh_fvgs : List (Fvg W)
  pub fresh_obs : List (OrderBlock W)

-- `M5 ${kind ?? 'none'} ${direction ?? ''}`, trimmed.
abbrev pub struct_text : Option (StructureKind × Side) → String
struct_text none = "M5 none"
struct_text (some (bos, bull)) = "M5 BOS BULLISH"
struct_text (some (bos, bear)) = "M5 BOS BEARISH"
struct_text (some (choch, bull)) = "M5 CHOCH BULLISH"
struct_text (some (choch, bear)) = "M5 CHOCH BEARISH"
struct_text (some (mss, bull)) = "M5 MSS BULLISH"
struct_text (some (mss, bear)) = "M5 MSS BEARISH"

module _ {W : Type 0} ⦃d : Double W⦄ where
  unfoldable pub swept_low : Evidence W → Bool
  swept_low e = any (λ s. is_low_side s.type) e.swept_levels

  unfoldable pub swept_high : Evidence W → Bool
  swept_high e = any (λ s. is_high_side s.type) e.swept_levels

  unfoldable pub bias_check : Evidence W → Direction → Check
  bias_check e dir = record {
    ok =
        if_long dir (is_bias e.bias bullish || e.in_discount)
          (is_bias e.bias bearish || e.in_premium);
    code = htf_bias_or_zone;
    desc = if_long dir "HTF bullish or discount" "HTF bearish or premium";
    weight = 20;
    evidence = [];
  }

  unfoldable pub sweep_check : Evidence W → Direction → Check
  sweep_check e dir = record {
    ok = swept_low e || swept_high e;
    code = liquidity_swept;
    desc = if_long dir "sell-side liquidity swept" "buy-side liquidity swept";
    weight = 20;
    evidence = map (λ s. level_id s.id) e.swept_levels;
  }

  -- The candle at an index that an earlier stage found in the array.
  abbrev pub opened_at : List (Candle W) → ℕ → List EvidenceId
  opened_at cs i = elim (get_elem? cs i) [ none ↦ [] | some c ↦ candle_id c.open_time ∷ [] ]

  unfoldable pub disp_colour : Direction → Option (Candle W) → Bool
  disp_colour dir none = false
  disp_colour dir (some c) = if_long dir (is_bullish c) (not (is_bullish c))

  unfoldable pub displacement_check : MmxmStrategyConfig W → Evidence W → Direction → Check
  displacement_check cfg e dir = record {
    ok = elim e.last_disp [
      | none ↦ false
      | some i ↦
          leb (length e.m15 - 1 - i) cfg.max_setup_age_candles_m15
          && disp_colour dir (get_elem? e.m15 i)
    ];
    code = displacement;
    desc = if_long dir "bullish displacement after sweep" "bearish displacement after sweep";
    weight = 15;
    evidence = elim e.last_disp [ none ↦ [] | some i ↦ opened_at e.m15 i ];
  }

  unfoldable pub structure_check : MmxmStrategyConfig W → Evidence W → Direction → Check
  structure_check cfg e dir = record {
    ok = elim e.last_struct [
      | none ↦ false
      | some s ↦
          is_turn s.kind
          && same_side s.direction (side_for dir)
          && leb (length e.m5 - 1 - s.break_candle_index) cfg.max_confirmation_age_candles_m5
    ];
    code = mss_choch;
    desc = struct_text (elim e.last_struct [ none ↦ none | some s ↦ some (s.kind, s.direction) ]);
    weight = 20;
    evidence = elim e.last_struct [ none ↦ [] | some s ↦ opened_at e.m5 s.break_candle_index ];
  }

  unfoldable pub zone_check : Evidence W → Direction → Check
  zone_check e dir = record {
    ok =
        any (λ f. same_side f.direction (side_for dir)) e.fresh_fvgs
        || any (λ o. same_side o.direction (side_for dir)) e.fresh_obs;
    code = fvg_or_ob;
    desc = if_long dir "bullish FVG/OB present" "bearish FVG/OB present";
    weight = 15;
    evidence = [];
  }

  -- Never blocks; it only adds weight.
  unfoldable pub discount_check : Evidence W → Direction → Check
  discount_check e dir =
      let zone_side_ok = if_long dir e.in_discount e.in_premium in
      record {
        ok = true;
        code = premium_discount;
        desc =
            if zone_side_ok
            then if_long dir "entry in discount (yes)" "entry in premium (yes)"
            else if_long dir "entry in discount (no)" "entry in premium (no)";
        weight = if zone_side_ok then 10 else 0;
        evidence = [];
      }

  unfoldable pub all_checks : MmxmStrategyConfig W → Evidence W → Direction → List Check
  all_checks cfg e dir =
      bias_check e dir
      ∷ sweep_check e dir
      ∷ displacement_check cfg e dir
      ∷ structure_check cfg e dir
      ∷ zone_check e dir
      ∷ discount_check e dir
      ∷ []

abbrev pub reason_of : Check → SignalReason
reason_of c = record {
  code = c.code;
  description = c.desc;
  evidence_candle_ids = c.evidence;
  weight = c.weight;
}

-- The reasons that the loop over the checks pushes.
unfoldable pub reasons_of : List Check → List SignalReason
reasons_of checks = map reason_of (filter (λ c. c.ok) checks)

unfoldable pub failed_codes : List Check → List ReasonCode
failed_codes checks = map (λ c. c.code) (filter (λ c. not c.ok) checks)

-- The sum of the weights of the checks that passed.
unfoldable pub total_weight : List Check → ℕ
total_weight = foldl (λ s c. s + (if c.ok then c.weight else 0)) 0
