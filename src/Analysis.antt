-- ===== src/Analysis.antt =====
-- apps/worker/src/analyzer.ts, `runAnalysis` up to the deduplication: whether the market is looked at,
-- what the engine finds, and the plan of a language model where it finds nothing. The model's answer is
-- an argument, a function of the last candles and the live price; Llm is how it is got. Its casts are
-- read as types, its summary is left out, and the verdict is what is kept for the API.
pub mod Plan
mod Tests
use mmxm.Prelude.{
  ℕ, zero, suc, ◌+◌, ◌-◌, ◌*◌, ◌==◌, Bool, true, false, not, ◌&&◌, ◌||◌, Option, none, some, List,
  [], ◌∷◌, map, String, ltb, leb, if◌then◌else◌, length, last, slice_last, take,
}
use mmxm.Double.{Double, of_ℕ}
use mmxm.Types.{
  Candle, Timeframe, m5, m15, Direction, long, short, Bias, bullish, bearish, neutral, MmxmModel,
  market_maker_buy_model, market_maker_sell_model, XauusdSignal, MmxmAnalysisInput,
}
use mmxm.Engine.{analyze}
use mmxm.Engine.Outcome.{Run, go, stop, thrown}

-- The columns of the newest tick that are read.
pub record LastTick (W : Type 0) : Type 0 where
  pub last : Option W
  pub bid : W

pub record LlmReason (W : Type 0) : Type 0 where
  pub code : String
  pub weight : Option W

-- An answer; a direction of none is `NONE`.
pub record LlmSignal (W : Type 0) : Type 0 where
  pub direction : Option Direction
  pub entry : Option W
  pub stop_loss : Option W
  pub take_profits : List W
  pub confidence : W
  pub is_sell_model : Bool
  pub htf_bias : Bias
  pub reasons : List (LlmReason W)

pub record LlmTarget (W : Type 0) : Type 0 where
  pub level : ℕ
  pub price : W
  pub allocation_percentage : ℕ

-- The signal that is made of an answer.
pub record LlmPlan (W : Type 0) : Type 0 where
  pub direction : Direction
  pub mmxm_model : MmxmModel
  pub entry_min : W
  pub entry_max : W
  pub preferred_entry : W
  pub stop_loss : W
  pub take_profits : List (LlmTarget W)
  pub risk_reward_ratio : W
  pub confidence_score : W
  pub higher_timeframe_bias : Bias
  pub weights : List W
  pub detected_at : ℕ
  pub expires_at : ℕ

pub data Found (W : Type 0) : Type 0 where
  market_closed few_candles engine_crashed no_setup entry_too_far : Found W
  by_engine : XauusdSignal W → Found W
  by_llm : LlmPlan W → Found W

-- `setLastVerdict`, less its texts.
pub record LastVerdict (W : Type 0) : Type 0 where
  pub direction : Option Direction
  pub entry : Option W
  pub stop_loss : Option W

abbrev pub allocation_of : ℕ → ℕ
allocation_of i = if i == 0 then 25 else if i == 1 then 25 else 50

abbrev pub model_of : Bool → MmxmModel
model_of true = market_maker_sell_model
model_of false = market_maker_buy_model

module _ {W : Type 0} where
  -- The newest M15 candle is older than an hour, or there is none.
  abbrev pub is_stale_market : ℕ → Option (Candle W) → Bool
  is_stale_market now none = true
  is_stale_market now (some c) = ltb (60 * 60_000) (now - c.open_time)

  -- `takeProfits.slice(0, 3).map((tp, i) => …)`
  abbrev pub targets_from : ℕ → List W → List (LlmTarget W)
  targets_from i [] = []
  targets_from i (p ∷ ps) =
      record { level = suc i; price = p; allocation_percentage = allocation_of i }
      ∷ targets_from (suc i) ps

module _ {W : Type 0} ⦃d : Double W⦄ where
  open d use {add, sub, mul, div, abs, max, min, round, lt, lit}

  abbrev pub or_zero : Option W → W
  or_zero none = of_ℕ 0
  or_zero (some x) = x

  -- The last price of the newest tick if it is positive, its bid otherwise; the last close if no tick is there.
  pub live_price : Option (LastTick W) → Option (Candle W) → W
  live_price (some t) c = if lt (of_ℕ 0) (or_zero t.last) then or_zero t.last else t.bid
  live_price none (some c) = c.close
  live_price none none = of_ℕ 0

  pub sum_ranges : W → List (Candle W) → W
  sum_ranges sum [] = sum
  sum_ranges sum (c ∷ []) = sum
  sum_ranges sum (prev ∷ cur ∷ cs) =
      sum_ranges
        (add sum (
          max (max (sub cur.high cur.low) (abs (sub cur.high prev.close)))
            (abs (sub cur.low prev.close))))
        (cur ∷ cs)

  -- `x || y` on numbers: 0 and NaN give `y`.
  abbrev or_else : W → W → W
  or_else x y = if lt (of_ℕ 0) x || lt x (of_ℕ 0) then x else y

  pub atr15 : List (Candle W) → W
  atr15 cs =
      let c = slice_last 15 cs in
      if ltb (length c) 2
      then of_ℕ 5
      else or_else (div (sum_ranges (of_ℕ 0) c) (of_ℕ (length c - 1))) (of_ℕ 5)

  pub is_too_far : W → W → W → W → Bool
  is_too_far entry risk live atr =
      lt (of_ℕ 0) live && lt (of_ℕ 0) risk && lt (mul (lit 15 1) atr) (abs (sub entry live))

  abbrev ratio_of : W → W → List W → W
  ratio_of entry risk [] = of_ℕ 1
  ratio_of entry risk (p ∷ ps) = if lt (of_ℕ 0) risk then div (abs (sub p entry)) risk else of_ℕ 1

  abbrev weight_or_five : Option W → W
  weight_or_five none = of_ℕ 5
  weight_or_five (some w) = w

  -- A weight of 0 to 1 is a share of 100.
  pub weight_of : LlmReason W → W
  weight_of r =
      let raw = weight_or_five r.weight in
      if lt (of_ℕ 1) raw
      then min (of_ℕ 99) (round raw)
      else min (of_ℕ 99) (round (mul raw (of_ℕ 100)))

  pub plan_of : ℕ → Direction → LlmSignal W → LlmPlan W
  plan_of now direction s =
      let entry = or_zero s.entry in
      let sl = or_zero s.stop_loss in
      let risk = abs (sub entry sl) in
      record {
        direction = direction;
        mmxm_model = model_of s.is_sell_model;
        entry_min = min entry (add sl (mul risk (lit 5 1)));
        entry_max = max entry (add sl (mul risk (lit 5 1)));
        preferred_entry = entry;
        stop_loss = sl;
        take_profits = targets_from 0 (take 3 s.take_profits);
        risk_reward_ratio = ratio_of entry risk s.take_profits;
        confidence_score = min (of_ℕ 100) (round s.confidence);
        higher_timeframe_bias = s.htf_bias;
        weights = map weight_of s.reasons;
        detected_at = now;
        expires_at = now + 4 * 3_600_000;
      }

  abbrev positive : Option W → Option W
  positive none = none
  positive (some x) = if lt (of_ℕ 0) x then some x else none

  pub weigh_direction :
      ℕ → List (Candle W) → W → LlmSignal W → Option Direction → Found W × Option (LastVerdict W)
  weigh_direction now cs live s none = (
    no_setup,
    some (record { direction = none; entry = positive s.entry; stop_loss = positive s.stop_loss }),
  )
  weigh_direction now cs live s (some direction) =
      if is_too_far (or_zero s.entry) (abs (sub (or_zero s.entry) (or_zero s.stop_loss))) live
        (atr15 cs)
      then (entry_too_far, none)
      else (
        by_llm (plan_of now direction s),
        some (record { direction = some direction; entry = s.entry; stop_loss = s.stop_loss }),
      )

  -- From the answer on: what is found, and the verdict that is kept, if one is.
  pub weigh_answer :
      ℕ → List (Candle W) → W → Option (LlmSignal W) → Found W × Option (LastVerdict W)
  weigh_answer now cs live none = (no_setup, none)
  weigh_answer now cs live (some s) = weigh_direction now cs live s s.direction

  pub after_engine :
      ℕ
      → List (Candle W)
      → Option (LastTick W)
      → (List (Candle W) → W → Option (LlmSignal W))
      → Run (XauusdSignal W)
      → Found W × Option (LastVerdict W)
  after_engine now cs tick ask (go sig) = (by_engine sig, none)
  after_engine now cs tick ask (stop _) =
      let live = live_price tick (last cs) in weigh_answer now cs live (ask (slice_last 12 cs) live)
  after_engine now cs tick ask thrown = (engine_crashed, none)

  pub find_signal :
      MmxmAnalysisInput W
      → String
      → ℕ
      → String
      → Option (LastTick W)
      → (List (Candle W) → W → Option (LlmSignal W))
      → Found W × Option (LastVerdict W)
  find_signal input version now uuid tick ask =
      if is_stale_market now (last (input.candles m15))
      then (market_closed, some (record { direction = none; entry = none; stop_loss = none }))
      else if ltb (length (input.candles m15)) 30 || ltb (length (input.candles m5)) 50
      then (few_candles, none)
      else after_engine now (input.candles m15) tick ask (analyze input version now uuid)
