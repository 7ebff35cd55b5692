-- ===== src/Plan/Tests.antt =====
-- The theorems on the take-profits at samples.
use mmxm.Prelude.{ℕ, List, [], ◌∷◌, ◌≡◌, ◌⊎◌, none, All}
use mmxm.Double.Fixed.{Fixed, fixed_double}
use mmxm.Types.{long, LiquidityLevel, DealingRange, swing_high, fresh, m15}
use mmxm.Samples.{price}
use mmxm.Checks.{if_long}
use mmxm.Plan.{take_profits_of, target}
use mmxm.Plan.Targets.{LiesBeyond, take_profits_of-LiesBeyond}

abbrev level : ℕ → LiquidityLevel Fixed
level p = record {
  id = record { kind = swing_high; stamp = p };
  timeframe = m15;
  type = swing_high;
  price = price p;
  state = fresh;
  detected_at = 0;
  swept_at = none;
  invalidated_at = none;
}

abbrev levels : List (LiquidityLevel Fixed)
levels = level 2030 ∷ level 2010 ∷ level 1990 ∷ []

abbrev range : DealingRange Fixed
range = record {
  low = price 1980;
  high = price 2040;
  equilibrium = price 2010;
  premium_above = price 2010;
  discount_below = price 2010;
}

take_profits_of-LiesBeyond_example :
    All
      (λ t. LiesBeyond long (price 2000) (price 2001) t.price)
      (take_profits_of long (price 2000) (price 2001) levels range)
    ⊎ (take_profits_of long (price 2000) (price 2001) levels range
        ≡ target 1 (if_long long range.high range.low) 100 swing_high ∷ [])
take_profits_of-LiesBeyond_example =
    take_profits_of-LiesBeyond long (price 2000) (price 2001) levels range
