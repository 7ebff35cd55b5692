-- ===== src/Zones.antt =====
-- packages/trading-core/src/zones.ts: fair value gaps, order blocks and their tests.
pub mod Gaps
pub mod Blocks
mod Tests
use mmxm.Prelude.{
  ℕ, zero, suc, ◌+◌, Bool, true, false, not, ◌&&◌, ◌||◌, Option, none, some, List, [], ◌∷◌, ◌++◌,
  map, if◌then◌else◌, get_elem?, drop, any, flat_map, foldl,
}
use mmxm.Double.{Double, of_ℕ}
use mmxm.Types.{Candle, Side, bull, bear, Fvg, OrderBlock}
use mmxm.Measure.{is_bullish, is_bearish, range}

-- The indices `i - 1`, `i - 2`, … not below 0, at most `n` of them.
abbrev pub down_from : ℕ → ℕ → List ℕ
down_from zero n = []
down_from (suc j) zero = []
down_from (suc j) (suc n) = j ∷ down_from j n

module _ {A B : Type 0} where
  -- A loop that breaks with the first result of its body.
  abbrev pub first_result : (A → Option B) → List A → Option B
  first_result f [] = none
  first_result f (x ∷ xs) = elim (f x) [ some y ↦ some y | none ↦ first_result f xs ]

  abbrev pub collect : (A → Option B) → A → List B
  collect f x = elim (f x) [ some y ↦ y ∷ [] | none ↦ [] ]

module _ {W : Type 0} ⦃d : Double W⦄ where
  open d use {sub, mul, lt, le, max}

  abbrev pub gap : Side → W → W → ℕ → Candle W → Candle W → Candle W → Fvg W
  gap direction low high i a b c = record {
    direction = direction;
    low = low;
    high = high;
    formed_at_index = i;
    mitigated = false;
    evidence_candle_ids = a.open_time ∷ b.open_time ∷ c.open_time ∷ [];
  }

  -- One round of the first loop, at the middle candle `b` with the index `i`.
  unfoldable pub gaps_at : W → ℕ → Candle W → Candle W → Candle W → List (Fvg W)
  gaps_at min_size i a b c =
      if not a.is_closed || not b.is_closed || not c.is_closed
      then []
      else (if lt a.high c.low && le min_size (sub c.low a.high)
          then gap bull a.high c.low i a b c ∷ []
          else [])
        ++ (if lt c.high a.low && le min_size (sub a.low c.high)
            then gap bear c.high a.low i a b c ∷ []
            else [])

  -- The first loop, where the list begins at the index `i - 1`.
  unfoldable pub gaps_from : W → ℕ → List (Candle W) → List (Fvg W)
  gaps_from min_size i (a ∷ b ∷ c ∷ cs) =
      gaps_at min_size i a b c ++ gaps_from min_size (suc i) (b ∷ c ∷ cs)
  gaps_from min_size i _ = []

  -- The candle trades back into the gap.
  abbrev pub fills : Side → W → W → Candle W → Bool
  fills bull low high c = le c.low high
  fills bear low high c = le low c.high

  -- One round of the second loop.
  unfoldable pub mitigate : List (Candle W) → Fvg W → Fvg W
  mitigate candles f =
      let filled =
        any (λ c. c.is_closed && fills f.direction f.low f.high c)
          (drop (f.formed_at_index + 2) candles) in
      if filled then record f { mitigated = true } else f

  unfoldable pub detect_fvgs : List (Candle W) → W → W → List (Fvg W)
  detect_fvgs candles minimum_fvg_atr atr_value =
      map (mitigate candles) (gaps_from (mul minimum_fvg_atr atr_value) 1 candles)

  abbrev pub block : Side → ℕ → Candle W → OrderBlock W
  block direction j c = record {
    direction = direction;
    low = c.low;
    high = c.high;
    formed_at_index = j;
    mitigated = false;
    evidence_candle_ids = c.open_time ∷ [];
  }

  -- One round of the inner loop; the read is in range, since `j` is below a displacement's index.
  unfoldable pub block_at : List (Candle W) → Bool → ℕ → Option (OrderBlock W)
  block_at candles bullish j = elim (get_elem? candles j) [
    | none ↦ none
    | some c ↦
        if not c.is_closed
        then none
        else if bullish && is_bearish c
        then some (block bull j c)
        else if not bullish && is_bullish c
        then some (block bear j c)
        else none
  ]

  -- One round of the outer loop. The engine passes indices of the array only.
  unfoldable pub order_block_of : List (Candle W) → ℕ → Option (OrderBlock W)
  order_block_of candles di = elim (get_elem? candles di) [
    | none ↦ none
    | some c ↦
        if not c.is_closed
        then none
        else first_result (block_at candles (is_bullish c)) (down_from di 3)
  ]

  unfoldable pub detect_order_blocks : List (Candle W) → List ℕ → List (OrderBlock W)
  detect_order_blocks candles displacement_indices =
      flat_map (collect (order_block_of candles)) displacement_indices

  pub fvg_contains : Fvg W → W → Bool
  fvg_contains f price = le f.low price && le price f.high

  pub ob_contains : OrderBlock W → W → Bool
  ob_contains o price = le o.low price && le price o.high

  pub largest_range : List (Candle W) → W
  largest_range candles = foldl (λ m c. max m (range c)) (of_ℕ 0) candles
