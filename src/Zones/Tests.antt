-- ===== src/Zones/Tests.antt =====
-- The theorems on zones at samples.
use mmxm.Prelude.{ℕ, [], ◌∷◌, All, Memᴰ}
use mmxm.Double.Fixed.{fixed_double}
use mmxm.Samples.{price, swing}
use mmxm.Zones.{detect_fvgs, detect_order_blocks}
use mmxm.Zones.Gaps.{IsFvg, detect_fvgs-IsFvg}
use mmxm.Zones.Blocks.{IsBlockOf, detect_order_blocks-IsBlockOf}

detect_fvgs-IsFvg_example :
    All (IsFvg swing (fixed_double.mul (price 1) (price 1))) (detect_fvgs swing (price 1) (price 1))
detect_fvgs-IsFvg_example = detect_fvgs-IsFvg swing (price 1) (price 1)

detect_order_blocks-IsBlockOf_example :
    All
      (λ o. (di : ℕ) × Memᴰ di (4 ∷ 5 ∷ []) × IsBlockOf swing di o)
      (detect_order_blocks swing (4 ∷ 5 ∷ []))
detect_order_blocks-IsBlockOf_example = detect_order_blocks-IsBlockOf swing (4 ∷ 5 ∷ [])
