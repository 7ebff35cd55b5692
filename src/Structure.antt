-- ===== src/Structure.antt =====
-- packages/trading-core/src/structure.ts: breaks of structure from pivots and closed candles.
pub mod Breaks
pub mod Stable
mod Tests
use mmxm.Prelude.{
  ℕ, suc, ◌+◌, Bool, true, false, not, ◌&&◌, ◌||◌, Option, none, some, List, [], ◌∷◌, leb, ltb,
  if◌then◌else◌, length, take, drop, any, sort_by,
}
use mmxm.Double.{Double}
use mmxm.Types.{
  Timeframe, Candle, Pivot, PivotKind, high_pivot, low_pivot, Trend, up, down, Side, bull, bear,
  StructureKind, bos, choch, mss, StructureEvent,
}

abbrev pub same_kind : PivotKind → PivotKind → Bool
same_kind high_pivot high_pivot = true
same_kind low_pivot low_pivot = true
same_kind _ _ = false

-- The trend after a break to this side.
abbrev pub trend_of : Side → Trend
trend_of bull = up
trend_of bear = down

-- `sort((a, b) => a.index - b.index)`
unfoldable pub by_index : {W : Type 0} → List (Pivot W) → List (Pivot W)
by_index = sort_by (λ a b. leb a.index b.index)

module _ {W : Type 0} ⦃d : Double W⦄ where
  -- The trend that two neighbouring pivots suggest.
  unfoldable pub infer_by : PivotKind → PivotKind → W → W → Option Trend → Option Trend
  infer_by high_pivot high_pivot prev cur trend = if d.lt prev cur then some up else trend
  infer_by low_pivot low_pivot prev cur trend = if d.lt cur prev then some down else trend
  infer_by _ _ prev cur trend = trend

  unfoldable pub infer_trend : Pivot W → Pivot W → Option Trend → Option Trend
  unfolding infer_by
  infer_trend prev cur trend = infer_by prev.kind cur.kind prev.price cur.price trend

  -- Whether the close of this candle is beyond the pivot by more than the buffer, and to which side.
  abbrev pub break_side : PivotKind → W → W → W → Option Side
  break_side high_pivot price buffer close =
      if d.lt (d.add price buffer) close then some bull else none
  break_side low_pivot price buffer close =
      if d.lt close (d.sub price buffer) then some bear else none

  -- The inner loop, over the candles from the index `k` on: the first break by a closed candle.
  unfoldable pub break_from : Pivot W → W → ℕ → List (Candle W) → Option (ℕ × Side)
  break_from cur buffer k [] = none
  break_from cur buffer k (c ∷ cs) =
      let later = break_from cur buffer (suc k) cs in
      if not c.is_closed then later else elim (break_side cur.kind cur.price buffer c.close) [
        | some side ↦ some (k, side)
        | none ↦ later
      ]

  abbrev beyond : Side → W → W → Bool
  beyond bull p o = d.lt p o
  beyond bear p o = d.lt o p

  -- One of the two pivots before the broken one is of its kind and lies beyond it.
  unfoldable pub breaks_origin : List (Pivot W) → Pivot W → Side → Bool
  breaks_origin before p against =
      any (λ o. same_kind o.kind p.kind && beyond against p.price o.price) (take 2 before)

  -- The kind of a break: against the trend it is a CHOCH, or an MSS where it breaks the origin.
  unfoldable pub break_kind : Option Trend → List (Pivot W) → Pivot W → Side → StructureKind
  break_kind (some down) before cur bull = if breaks_origin before cur bear then mss else choch
  break_kind (some up) before cur bear = if breaks_origin before cur bull then mss else choch
  break_kind trend before cur side = bos

  module _ (candles : List (Candle W)) (timeframe : Timeframe) (buffer : W) where
    abbrev pub first_break : Pivot W → Option (ℕ × Side)
    first_break cur = break_from cur buffer (suc cur.index) (drop (suc cur.index) candles)

    abbrev pub break_event : StructureKind → Pivot W → ℕ → Side → StructureEvent W
    break_event kind cur k side = record {
      kind = kind;
      direction = side;
      break_price = cur.price;
      pivot_index = cur.index;
      break_candle_index = k;
      timeframe = timeframe;
      is_confirmed = true;
    }

    -- The outer loop: `before` holds the pivots already passed, the nearest first.
    unfoldable pub structure_from :
        Pivot W → List (Pivot W) → List (Pivot W) → Option Trend → List (StructureEvent W)
    structure_from prev before [] trend = []
    structure_from prev before (cur ∷ rest) trend =
        let trend' = infer_trend prev cur trend in
        elim (first_break cur) [
          | none ↦ structure_from cur (cur ∷ before) rest trend'
          | some (k, side) ↦
              break_event (break_kind trend' before cur side) cur k side
              ∷ structure_from cur (cur ∷ before) rest (some (trend_of side))
        ]

    unfoldable pub from_sorted : List (Pivot W) → List (StructureEvent W)
    from_sorted [] = []
    from_sorted (p ∷ ps) = structure_from p (p ∷ []) ps none

  unfoldable pub detect_structure :
      List (Candle W) → List (Pivot W) → Timeframe → W → W → List (StructureEvent W)
  detect_structure candles pivots timeframe buffer_atr atr_value =
      if ltb (length pivots) 2
      then []
      else from_sorted candles timeframe (d.mul buffer_atr atr_value) (by_index pivots)
