-- ===== src/Structure/Tests.antt =====
-- The theorems on structure events at a sample with a break down and a break up of the origin.
use mmxm.Prelude.{ℕ, ◌≡◌, refl, List, [], ◌∷◌, ◌++◌, All, map}
use mmxm.Double.Fixed.{Fixed, fixed_double}
use mmxm.Types.{Candle, m5, Pivot, StructureKind, bos, mss}
use mmxm.Samples.{price, candle, swing, more}
use mmxm.Pivots.{scan, pivots_of, pivots_at, find_pivots}
use mmxm.Structure.{
  detect_structure, by_index, from_sorted, structure_from, infer_trend, infer_by, break_from,
  break_kind, breaks_origin,
}
use mmxm.Structure.Breaks.{IsBreak, detect_structure-IsBreak}
use mmxm.Structure.Stable.{IsAmong, detect_structure-append}

-- After the swing: a fall below its low, and a rise above its high.
abbrev breaking : List (Candle Fixed)
breaking =
    swing
    ++ (candle 30 2019 2019 2000 2001
        ∷ candle 35 2001 2005 1980 1982
        ∷ candle 40 1982 2030 1981 2028
        ∷ [])

abbrev pivots : List (Pivot Fixed)
pivots = find_pivots breaking 1 1

-- The kind, the pivot and the candle of each event.
breaks :
    map {B = StructureKind × ℕ × ℕ}
      (λ e. (e.kind, e.pivot_index, e.break_candle_index))
      (detect_structure breaking pivots m5 (price 1) (price 2))
    ≡ (bos, 3, 7) ∷ (mss, 5, 8) ∷ []
unfolding detect_structure by_index from_sorted structure_from infer_trend infer_by break_from
    break_kind breaks_origin find_pivots pivots_at pivots_of scan
breaks = refl

detect_structure-IsBreak_example :
    All
      (IsBreak breaking (fixed_double.mul (price 1) (price 2)) pivots)
      (detect_structure breaking pivots m5 (price 1) (price 2))
detect_structure-IsBreak_example = detect_structure-IsBreak breaking pivots m5 (price 1) (price 2)

detect_structure-append_example :
    All
      (IsAmong (detect_structure (breaking ++ more) pivots m5 (price 1) (price 2)))
      (detect_structure breaking pivots m5 (price 1) (price 2))
detect_structure-append_example =
    detect_structure-append breaking more pivots m5 (price 1) (price 2)
