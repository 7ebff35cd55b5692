-- ===== src/Analysis/Tests.antt =====
-- The theorem on the analysis at a market of candles that are still open, which the engine refuses, and
-- an answer with an entry one above the live price.
use mmxm.Prelude.{
  ℕ, ◌≡◌, ◌↔◌, refl, true, false, Option, none, some, List, [], ◌∷◌, map, ltb, length,
}
use mmxm.Double.Fixed.{Fixed, fixed_double}
use mmxm.Types.{Candle, long, bullish, MmxmAnalysisInput, default_strategy_config}
use mmxm.Samples.{price, flat}
use mmxm.Measure.{closed_only}
use mmxm.Engine.Few.{analyze_few}
use mmxm.Analysis.{
  LastTick, LlmSignal, by_llm, live_price, sum_ranges, atr15, is_too_far, plan_of, weigh_direction,
  weigh_answer, after_engine, find_signal,
}
use mmxm.Analysis.Plan.{IsLlmPlan, find_signal-IsLlmPlan}

abbrev still_open : ℕ → List (Candle Fixed)
still_open n = map (λ (c : Candle Fixed). record c { is_closed = false }) (flat n)

abbrev market : MmxmAnalysisInput Fixed
market = record { candles = λ t. still_open 50; config = default_strategy_config }

abbrev answer : LlmSignal Fixed
answer = record {
  direction = some long;
  entry = some (price 2001);
  stop_loss = some (price 1990);
  take_profits = price 2010 ∷ price 2020 ∷ [];
  confidence = price 80;
  is_sell_model = false;
  htf_bias = bullish;
  reasons = [];
}

abbrev tick : Option (LastTick Fixed)
tick = some (record { last = none; bid = price 2000 })

none_closed : ltb (length (closed_only (still_open 50))) 30 ≡ true
unfolding closed_only
none_closed = refl

found :
    (find_signal market "v1" 60_000 "id" tick (λ candles live. some answer)).0
    ≡ by_llm (plan_of 60_000 long answer)
unfolding find_signal after_engine weigh_answer weigh_direction is_too_far atr15 sum_ranges
    live_price
found = rw (analyze_few market "v1" 60_000 "id" none_closed) refl

-- An answer without an entry and a stop is a plan with the entry 0, although the live price is 2000.
abbrev bare_answer : LlmSignal Fixed
bare_answer = record answer { entry = none; stop_loss = none }

found_bare :
    (find_signal market "v1" 60_000 "id" tick (λ candles live. some bare_answer)).0
    ≡ by_llm (plan_of 60_000 long bare_answer)
unfolding find_signal after_engine weigh_answer weigh_direction is_too_far live_price
found_bare = rw (analyze_few market "v1" 60_000 "id" none_closed) refl

entry_zero : (plan_of 60_000 long bare_answer).preferred_entry ≡ price 0
unfolding plan_of
entry_zero = refl

find_signal-IsLlmPlan_example :
    ((find_signal market "v1" 60_000 "id" tick (λ candles live. some answer)).0
      ≡ by_llm (plan_of 60_000 long answer))
    ↔ IsLlmPlan market "v1" 60_000 "id" tick
        (λ candles live. some answer)
        (plan_of 60_000 long answer)
find_signal-IsLlmPlan_example =
    find_signal-IsLlmPlan market "v1" 60_000 "id" tick (λ candles live. some answer)
      (plan_of 60_000 long answer)

is_plan :
    IsLlmPlan market "v1" 60_000 "id" tick
      (λ candles live. some answer)
      (plan_of 60_000 long answer)
is_plan =
    (find_signal-IsLlmPlan market "v1" 60_000 "id" tick (λ candles live. some answer)
        (plan_of 60_000 long answer)).0
      found
