-- ===== src/Liquidity/Sessions.antt =====
-- packages/trading-core/src/liquidity.ts: the sides of the kinds of levels, the sessions of a day, and the
-- calendar in milliseconds of UTC.
use mmxm.Prelude.{ℕ, ◌+◌, ◌*◌, ◌/◌, ◌%◌, Bool, true, false, List, [], ◌∷◌, ◌==◌, if◌then◌else◌}
use mmxm.Types.{
  LiquidityType, pdh, pdl, pwh, pwl, asia_high, asia_low, london_high, london_low, new_york_high,
  new_york_low, equal_high, equal_low, swing_high, swing_low,
}

-- `type.endsWith('HIGH') || type === 'PDH' || type === 'PWH'`
abbrev pub is_high_side : LiquidityType → Bool
is_high_side pdh = true
is_high_side pwh = true
is_high_side asia_high = true
is_high_side london_high = true
is_high_side new_york_high = true
is_high_side equal_high = true
is_high_side swing_high = true
is_high_side _ = false

-- `type.endsWith('LOW') || type === 'PDL' || type === 'PWL'`
abbrev pub is_low_side : LiquidityType → Bool
is_low_side pdl = true
is_low_side pwl = true
is_low_side asia_low = true
is_low_side london_low = true
is_low_side new_york_low = true
is_low_side equal_low = true
is_low_side swing_low = true
is_low_side _ = false

-- `type.startsWith('SWING') || type.startsWith('EQUAL')`
abbrev pub is_derived : LiquidityType → Bool
is_derived swing_high = true
is_derived swing_low = true
is_derived equal_high = true
is_derived equal_low = true
is_derived _ = false

abbrev pub ms_per_day : ℕ
ms_per_day = 86_400_000

abbrev pub ms_per_hour : ℕ
ms_per_hour = 3_600_000

-- Midnight UTC of the day of `now`.
unfoldable pub day_start : ℕ → ℕ
day_start now = now / ms_per_day * ms_per_day

-- `getUTCDay`, with Sunday as 7; the first of January 1970 was a Thursday.
unfoldable pub day_of_week : ℕ → ℕ
day_of_week now = let dow = (now / ms_per_day + 4) % 7 in if dow == 0 then 7 else dow

pub record Session : Type 0 where
  pub high_type : LiquidityType
  pub low_type : LiquidityType
  pub start_utc_hour : ℕ
  pub end_utc_hour : ℕ

abbrev pub sessions : List Session
sessions =
    record { high_type = asia_high; low_type = asia_low; start_utc_hour = 0; end_utc_hour = 7 }
    ∷ record {
      high_type = london_high;
      low_type = london_low;
      start_utc_hour = 7;
      end_utc_hour = 12;
    }
    ∷ record {
      high_type = new_york_high;
      low_type = new_york_low;
      start_utc_hour = 12;
      end_utc_hour = 21;
    }
    ∷ []
