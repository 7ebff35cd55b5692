-- ===== src/Bias.antt =====
-- packages/trading-core/src/engine.ts: the dealing range, the bias of the higher timeframes and the
-- displacement candles.
pub mod Displacement
pub mod Window
use mmxm.Prelude.{
  ℕ, suc, Bool, true, false, not, ◌&&◌, ◌||◌, Option, none, some, List, [], ◌∷◌, ltb, if◌then◌else◌,
  length, slice_last, first, last,
}
use mmxm.Double.{Double, of_ℕ}
use mmxm.Types.{Candle, Bias, bullish, bearish, neutral, DealingRange}
use mmxm.Measure.{closed_only, body, range}
use mmxm.Liquidity.{highest, lowest}

-- The bias of H4 with that of H1.
unfoldable pub combine : Bias → Bias → Bias
combine bullish bearish = neutral
combine bullish _ = bullish
combine bearish bullish = neutral
combine bearish _ = bearish
combine neutral b = b

module _ {W : Type 0} ⦃d : Double W⦄ where
  open d use {add, sub, mul, div, neg, lt, le, lit}

  unfoldable pub dealing_range : List (Candle W) → Option (DealingRange W)
  dealing_range candles =
      let closed = closed_only candles in
      let hi = highest closed in
      let lo = lowest closed in
      let eq = div (add hi lo) (of_ℕ 2) in
      if ltb (length closed) 10
      then none
      else some (record {
        low = lo;
        high = hi;
        equilibrium = eq;
        premium_above = add eq (mul (sub hi lo) (lit 0 1));
        discount_below = eq;
      })

  -- `biasOf`, with 1, -1 and 0 as bullish, bearish and neutral.
  unfoldable pub bias_of_change : W → Bias
  bias_of_change pct =
      if lt (lit 1 3) pct then bullish else if lt pct (neg (lit 1 3)) then bearish else neutral

  unfoldable pub bias_between : Option (Candle W) → Option (Candle W) → Bias
  bias_between (some a) (some b) = bias_of_change (div (sub b.close a.close) a.close)
  bias_between _ _ = neutral

  unfoldable pub bias_of : List (Candle W) → Bias
  bias_of candles =
      let closed = slice_last 20 (closed_only candles) in
      if ltb (length closed) 5 then neutral else bias_between (first closed) (last closed)

  unfoldable pub htf_bias : List (Candle W) → List (Candle W) → Bias
  htf_bias h4 h1 = combine (bias_of h4) (bias_of h1)

  -- The test of one candle with its ATR.
  unfoldable pub is_displacement : W → W → Candle W → Option W → Bool
  is_displacement min_body_atr min_range_atr c none = false
  is_displacement min_body_atr min_range_atr c (some a) =
      c.is_closed && le (mul min_body_atr a) (body c) && le (mul min_range_atr a) (range c)

  -- The loop from the index `i` on.
  unfoldable pub displacements_from : W → W → ℕ → List (Candle W) → List (Option W) → List ℕ
  displacements_from min_body_atr min_range_atr i (c ∷ cs) (a ∷ atrs) =
      let rest = displacements_from min_body_atr min_range_atr (suc i) cs atrs in
      if is_displacement min_body_atr min_range_atr c a then i ∷ rest else rest
  displacements_from min_body_atr min_range_atr i _ _ = []

  unfoldable pub displacement_indices : List (Candle W) → List (Option W) → W → W → List ℕ
  displacement_indices candles atr_arr min_body_atr min_range_atr =
      displacements_from min_body_atr min_range_atr 0 candles atr_arr
