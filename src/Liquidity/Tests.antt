-- ===== src/Liquidity/Tests.antt =====
-- The theorems on liquidity levels at samples.
use mmxm.Prelude.{ℕ, ◌≡◌, refl, inl, inr, none, some}
use mmxm.Double.Fixed.{Fixed, fixed_double}
use mmxm.Types.{LiquidityLevel, swing_high, fresh, swept, m15}
use mmxm.Samples.{price, swing}
use mmxm.Liquidity.{classify_level_interaction, interaction_from, decides}
use mmxm.Liquidity.Interaction.{IsFinal, Settles, classify-Settles}

-- The second candle's wick takes it and the candle closes below.
abbrev level : LiquidityLevel Fixed
level = record {
  id = record { kind = swing_high; stamp = 0 };
  timeframe = m15;
  type = swing_high;
  price = price 2011;
  state = fresh;
  detected_at = 0;
  swept_at = none;
  invalidated_at = none;
}

is_swept : classify_level_interaction level swing (price 0) (price 1) ≡ (swept, some 300_000)
unfolding classify_level_interaction interaction_from decides
is_swept = refl

not-IsFinal : ¬ (IsFinal fresh)
not-IsFinal (inl e) = cc
not-IsFinal (inr e) = cc

classify-Settles_example :
    (t : ℕ) × (some 300_000 ≡ some t)
    × Settles level (fixed_double.mul (price 0) (price 1)) swing swept t
classify-Settles_example =
    classify-Settles level swing (price 0) (price 1) swept (some 300_000) (inl refl) not-IsFinal
      is_swept
