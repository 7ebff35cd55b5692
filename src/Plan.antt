-- ===== src/Plan.antt =====
-- packages/trading-core/src/engine.ts, `analyze`: the entry zone, the stop, the targets and the
-- reward for the risk.
pub mod Targets
mod Tests
use mmxm.Prelude.{
  ℕ, suc, ◌+◌, ◌*◌, Bool, true, false, not, ◌&&◌, Option, none, some, List, [], ◌∷◌, ltb,
  if◌then◌else◌, filter, find, sort_by, take,
}
use mmxm.Double.{Double, of_ℕ}
use mmxm.Types.{
  Direction, long, short, Fvg, OrderBlock, LiquidityLevel, LiquidityType, swing_high, TakeProfit,
  DealingRange, MmxmStrategyConfig,
}
use mmxm.Checks.{if_long, same_side, side_for, Evidence}
use mmxm.Liquidity.{is_high_side, is_low_side}

-- `i === 0 ? 25 : i === 1 ? 25 : 50`
abbrev pub allocation_at : ℕ → ℕ
allocation_at i = if ltb i 2 then 25 else 50

module _ {W : Type 0} ⦃d : Double W⦄ where
  open d use {add, sub, mul, div, abs, lt, le, max, lit}

  -- The zone of the first fresh gap on the direction's side, or else of the first such block.
  unfoldable pub entry_zone : Evidence W → Direction → Option (W × W)
  entry_zone e dir = elim (find (λ f. same_side f.direction (side_for dir)) e.fresh_fvgs) [
    | some f ↦ some (f.low, f.high)
    | none ↦ elim (find (λ o. same_side o.direction (side_for dir)) e.fresh_obs) [
      | some o ↦ some (o.low, o.high)
      | none ↦ none
    ]
  ]

  -- `Math.max` of three is taken two by two.
  unfoldable pub zone_dist : Direction → W → W → W → W
  zone_dist long entry_min entry_max price =
      max (max (sub entry_min price) (sub price entry_max)) (of_ℕ 0)
  zone_dist short entry_min entry_max price =
      max (max (sub price entry_max) (sub entry_min price)) (of_ℕ 0)

  unfoldable pub max_zone_dist : MmxmStrategyConfig W → W → W
  max_zone_dist cfg atr_now15 = if ltb 0 cfg.atr_period then mul atr_now15 (lit 50 1) else of_ℕ 0

  unfoldable pub preferred_entry_of : W → W → W
  preferred_entry_of entry_min entry_max = div (add entry_min entry_max) (of_ℕ 2)

  unfoldable pub stop_loss_of : Direction → W → W → W → W
  stop_loss_of long entry_min entry_max sl_buffer = sub entry_min sl_buffer
  stop_loss_of short entry_min entry_max sl_buffer = add entry_max sl_buffer

  -- A level on the far side, beyond the entry and beyond the current price.
  unfoldable pub is_opposing : Direction → W → W → LiquidityLevel W → Bool
  is_opposing long entry price l = is_high_side l.type && lt entry l.price && lt price l.price
  is_opposing short entry price l = is_low_side l.type && lt l.price entry && lt l.price price

  -- The comparison of `sort` does not put `b` before `a`.
  unfoldable pub nearer : Direction → LiquidityLevel W → LiquidityLevel W → Bool
  nearer long a b = not (lt (of_ℕ 0) (sub a.price b.price))
  nearer short a b = not (lt (of_ℕ 0) (sub b.price a.price))

  unfoldable pub opposing_levels :
      Direction → W → W → List (LiquidityLevel W) → List (LiquidityLevel W)
  opposing_levels dir entry price liq =
      sort_by (nearer dir) (filter (is_opposing dir entry price) liq)

  abbrev pub target : ℕ → W → ℕ → LiquidityType → TakeProfit W
  target level price allocation type = record {
    level = level;
    price = price;
    allocation_percentage = allocation;
    liquidity_target = type;
  }

  -- `map((l, i) => …)` from the position `i` on.
  unfoldable pub targets_from : ℕ → List (LiquidityLevel W) → List (TakeProfit W)
  targets_from i [] = []
  targets_from i (l ∷ ls) =
      target (i + 1) l.price (allocation_at i) l.type ∷ targets_from (i + 1) ls

  -- The first three opposing levels, or else the end of the dealing range.
  unfoldable pub take_profits_of :
      Direction → W → W → List (LiquidityLevel W) → DealingRange W → List (TakeProfit W)
  take_profits_of dir entry price liq dr =
      elim (targets_from 0 (take 3 (opposing_levels dir entry price liq))) [
        | [] ↦ target 1 (if_long dir dr.high dr.low) 100 swing_high ∷ []
        | t ∷ ts ↦ t ∷ ts
      ]

  unfoldable pub reward_for_risk : W → W → W → W
  reward_for_risk target_price entry risk = div (abs (sub target_price entry)) risk
