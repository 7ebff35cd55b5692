-- ===== src/Pivots.antt =====
-- packages/trading-core/src/pivots.ts: confirmed pivots and groups of equal levels.
pub mod Window
pub mod Sound
pub mod NoRepaint
mod Tests
use mmxm.Prelude.{
  ℕ, suc, ◌+◌, ◌-◌, Bool, true, false, not, ◌&&◌, Option, none, some, List, [], ◌∷◌, ◌++◌, ◌==◌,
  if◌then◌else◌, length, get_elem?, flat_map, upto,
}
use mmxm.Double.{Double}
use mmxm.Types.{Candle, Pivot, PivotKind, high_pivot, low_pivot}

module _ {A : Type 0} where
  -- The inner loop of `findPivots` with its flags `isHigh` and `isLow`, over the indices still to
  -- visit; `p` and `q` are the tests that clear them. It breaks when both are cleared. The read
  -- `candles[j]!` is in range for every caller.
  unfoldable pub scan : (p q : A → Bool) → List A → ℕ → List ℕ → Bool → Bool → Bool × Bool
  scan p q candles i [] is_high is_low = (is_high, is_low)
  scan p q candles i (j ∷ js) is_high is_low = elim (j == i) [
    | true ↦ scan p q candles i js is_high is_low
    | false ↦ elim (get_elem? candles j) [
      | none ↦ scan p q candles i js is_high is_low
      | some o ↦
          let high' = if p o then false else is_high in
          let low' = if q o then false else is_low in
          elim (not high' && not low') [
            | true ↦ (high', low')
            | false ↦ scan p q candles i js high' low'
          ]
    ]
  ]

module _ {W : Type 0} ⦃d : Double W⦄ where
  abbrev pub pivot : ℕ → Candle W → W → PivotKind → Pivot W
  pivot i c price kind = record {
    index = i;
    time = c.open_time;
    price = price;
    kind = kind;
    is_confirmed = true;
  }

  -- `o.high >= c.high` and `o.low <= c.low`
  abbrev pub tops : Candle W → Candle W → Bool
  tops c o = d.le c.high o.high

  abbrev pub undercuts : Candle W → Candle W → Bool
  undercuts c o = d.le o.low c.low

  -- The pivots that one round of the outer loop pushes.
  unfoldable pub pivots_of : ℕ → Candle W → Bool × Bool → List (Pivot W)
  pivots_of i c (is_high, is_low) =
      (if is_high then pivot i c c.high high_pivot ∷ [] else [])
      ++ (if is_low then pivot i c c.low low_pivot ∷ [] else [])

  unfoldable pub pivots_at : List (Candle W) → ℕ → ℕ → ℕ → List (Pivot W)
  pivots_at candles left right i = elim (get_elem? candles i) [
    | none ↦ []
    | some c ↦
        pivots_of i c
          (scan (tops c) (undercuts c) candles i (upto (i - left) (i + right + 1)) true true)
  ]

  unfoldable pub find_pivots : List (Candle W) → ℕ → ℕ → List (Pivot W)
  find_pivots candles left right =
      flat_map (pivots_at candles left right) (upto left (length candles - right))
