-- ===== src/Measure.antt =====
-- packages/trading-core/src/measure.ts: true range, ATR and the measures of one candle.
pub mod NoRepaint
use mmxm.Prelude.{
  ℕ, zero, suc, ◌+◌, ◌-◌, Bool, Option, none, some, List, [], ◌∷◌, ◌++◌, map, ltb, if◌then◌else◌,
  length, take, drop, filter, foldl, replicate, All, ◌≡◌, true,
}
use mmxm.Prelude.Loops.{filter-All, filter_of_All}
use mmxm.Double.{Double, of_ℕ}
use mmxm.Types.{Candle}

module _ {W : Type 0} ⦃d : Double W⦄ where
  open d use {add, sub, mul, div, abs, max, lt}

  -- `Math.max` of three is taken two by two.
  unfoldable pub true_range : Candle W → Candle W → W
  true_range cur prev =
      max (max (sub cur.high cur.low) (abs (sub cur.high prev.close)))
        (abs (sub cur.low prev.close))

  -- `trueRange(candles[i], candles[i - 1])` for every i from 1 on.
  unfoldable pub true_ranges : List (Candle W) → List W
  true_ranges [] = []
  true_ranges (c ∷ []) = []
  true_ranges (prev ∷ cur ∷ cs) = true_range cur prev ∷ true_ranges (cur ∷ cs)

  -- One round of Wilder's smoothing: (previous · (period - 1) + range) / period.
  unfoldable pub smooth : ℕ → W → W → W
  smooth period a tr = div (add (mul a (sub (of_ℕ period) (of_ℕ 1))) tr) (of_ℕ period)

  -- The second loop: each entry from the one before it.
  unfoldable pub atr_from : ℕ → W → List W → List (Option W)
  atr_from period a [] = []
  atr_from period a (tr ∷ trs) =
      let next = smooth period a tr in some next ∷ atr_from period next trs

  -- The two loops, over a history of more than `period` candles: null before the index `period`.
  unfoldable pub atr_series : List W → ℕ → List (Option W)
  atr_series trs period =
      let start = div (foldl add (of_ℕ 0) (take period trs)) (of_ℕ period) in
      replicate period none ++ (some start ∷ atr_from period start (drop period trs))

  unfoldable pub atr : List (Candle W) → ℕ → List (Option W)
  atr candles period =
      if ltb (length candles) (period + 1)
      then replicate (length candles) none
      else atr_series (true_ranges candles) period

  unfoldable pub body : Candle W → W
  body c = abs (sub c.close c.opening)

  unfoldable pub range : Candle W → W
  range c = sub c.high c.low

  unfoldable pub is_bullish : Candle W → Bool
  is_bullish c = lt c.opening c.close

  unfoldable pub is_bearish : Candle W → Bool
  is_bearish c = lt c.close c.opening

unfoldable pub closed_only : {W : Type 0} → List (Candle W) → List (Candle W)
closed_only candles = filter (λ c. c.is_closed) candles

pub closed_only-All :
    {W : Type 0} (cs : List (Candle W)) → All (λ c. c.is_closed ≡ true) (closed_only cs)
unfolding closed_only
closed_only-All cs = filter-All (λ c. c.is_closed) cs

pub closed_only_of_All :
    {W : Type 0} (cs : List (Candle W)) → All (λ c. c.is_closed ≡ true) cs → closed_only cs ≡ cs
unfolding closed_only
closed_only_of_All cs h = filter_of_All (λ c. c.is_closed) cs h
