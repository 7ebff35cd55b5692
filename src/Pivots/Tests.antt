-- ===== src/Pivots/Tests.antt =====
-- The theorems on pivots at samples.
use mmxm.Prelude.{zero, suc, refl, All, Memᴰ, arith}
use mathlib.Core.Option.{some-injective}
use mmxm.Double.Fixed.{fixed_double}
use mmxm.Types.{high_pivot}
use mmxm.Samples.{price, candle, swing}
use mmxm.Pivots.{pivot, find_pivots}
use mmxm.Pivots.Sound.{IsPivot, Stands, rival, find_pivots-IsPivot, mem-find_pivots}

find_pivots-IsPivot_example : All (IsPivot swing 1 1) (find_pivots swing 1 1)
find_pivots-IsPivot_example = find_pivots-IsPivot swing 1 1

top-Stands : Stands swing 1 1 (rival swing 1 1 high_pivot (candle 5 2003 2012 2002 2010)) 1
top-Stands zero low high other o found = rw (← some-injective _ _ found) refl
top-Stands (suc zero) low high other o found = absurd (other refl)
top-Stands (suc (suc zero)) low high other o found = rw (← some-injective _ _ found) refl
top-Stands (suc (suc (suc j))) low high other o found = absurd (omega arith)

mem-find_pivots_example :
    Memᴰ (pivot 1 (candle 5 2003 2012 2002 2010) (price 2012) high_pivot) (find_pivots swing 1 1)
mem-find_pivots_example =
    mem-find_pivots swing 1 1 high_pivot 1 (candle 5 2003 2012 2002 2010) (omega arith)
      (omega arith) refl top-Stands
