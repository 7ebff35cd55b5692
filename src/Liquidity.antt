-- ===== src/Liquidity.antt =====
-- packages/trading-core/src/liquidity.ts and `findEqualLevels` of pivots.ts: liquidity levels from
-- sessions, days, weeks and pivots, and how candles interact with a level. `now` is the time that
-- the source reads from the clock; calendar arithmetic is on milliseconds of UTC.
pub mod Interaction
mod Sessions
mod Tests
use mmxm.Prelude.{
  ℕ, zero, suc, ◌+◌, ◌-◌, ◌*◌, ◌/◌, ◌%◌, Bool, true, false, not, ◌&&◌, ◌||◌, Option, none, some,
  List, [], ◌∷◌, ◌++◌, map, ltb, leb, ◌==◌, if◌then◌else◌, length, filter, any, flat_map, foldl,
  first,
}
use mmxm.Double.{Double, of_ℕ}
use mmxm.Types.{
  Timeframe, Candle, Pivot, PivotKind, high_pivot, low_pivot, LiquidityType, pdh, pdl, pwh, pwl,
  asia_high, asia_low, london_high, london_low, new_york_high, new_york_low, equal_high, equal_low,
  swing_high, swing_low, LiquidityState, fresh, touched, swept, broken, LiquidityLevel,
}
use mmxm.Structure.{same_kind}
unfoldable pub use Sessions.*

-- A group of equal levels: the mean of its prices and the indices of its pivots.
pub record EqualGroup (W : Type 0) : Type 0 where
  pub price : W
  pub indices : List ℕ

abbrev pub swing_type : PivotKind → LiquidityType
swing_type high_pivot = swing_high
swing_type low_pivot = swing_low

-- `g.indices[0]`; a group is never empty.
abbrev pub first_index : List ℕ → ℕ
first_index [] = 0
first_index (i ∷ _) = i

-- `used.has(i)`
abbrev pub has : ℕ → List ℕ → Bool
has i used = any (λ j. j == i) used

module _ {W : Type 0} ⦃d : Double W⦄ where
  open d use {add, sub, mul, div, neg, abs, lt, le}

  -- The closed candles that open from `start` on and before `end`.
  unfoldable pub in_window : ℕ → ℕ → List (Candle W) → List (Candle W)
  in_window start end = filter (λ c. leb start c.open_time && ltb c.open_time end && c.is_closed)

  unfoldable pub highest : List (Candle W) → W
  highest = foldl (λ hi c. d.max hi c.high) (neg d.infinity)

  unfoldable pub lowest : List (Candle W) → W
  lowest = foldl (λ lo c. d.min lo c.low) d.infinity

  abbrev pub level_of : LiquidityType → ℕ → Timeframe → W → ℕ → LiquidityLevel W
  level_of type stamp timeframe price detected_at = record {
    id = record { kind = type; stamp = stamp };
    timeframe = timeframe;
    type = type;
    price = price;
    state = fresh;
    detected_at = detected_at;
    swept_at = none;
    invalidated_at = none;
  }

  -- One round of the loop over the sessions.
  unfoldable pub session_levels :
      List (Candle W) → Timeframe → ℕ → Session → List (LiquidityLevel W)
  session_levels candles timeframe day s =
      let win_end = day + s.end_utc_hour * ms_per_hour in
      let in_win = in_window (day + s.start_utc_hour * ms_per_hour) win_end candles in
      if ltb (length in_win) 2
      then []
      else level_of s.high_type day timeframe (highest in_win) win_end
        ∷ level_of s.low_type day timeframe (lowest in_win) win_end
        ∷ []

  unfoldable pub detect_session_levels : List (Candle W) → Timeframe → ℕ → List (LiquidityLevel W)
  detect_session_levels candles timeframe now =
      flat_map (session_levels candles timeframe (day_start now)) sessions

  -- The two levels of a day or a week that began at `start` and ended at `end`, if it has candles.
  unfoldable pub period_levels :
      LiquidityType → LiquidityType → ℕ → ℕ → List (Candle W) → Timeframe → List (LiquidityLevel W)
  period_levels high_type low_type start end candles timeframe =
      let inside = in_window start end candles in
      if length inside == 0
      then []
      else level_of high_type start timeframe (highest inside) end
        ∷ level_of low_type start timeframe (lowest inside) end
        ∷ []

  -- Times before 1970 are 0 here; no candle opens before them either way.
  unfoldable pub detect_prev_day_week_levels :
      List (Candle W) → Timeframe → ℕ → List (LiquidityLevel W)
  detect_prev_day_week_levels candles timeframe now =
      let day = day_start now in
      let week = day - (day_of_week now - 1) * ms_per_day in
      period_levels pdh pdl (day - ms_per_day) day candles timeframe
      ++ period_levels pwh pwl (week - 7 * ms_per_day) week candles timeframe

  -- The inner loop of `findEqualLevels`: what the group of `p` takes from the pivots from the
  -- position `j` on, with the group, the sum of its prices and the used positions so far.
  unfoldable pub gather :
      W → Pivot W → ℕ → List (Pivot W) → List ℕ → W → List ℕ → List ℕ × W × List ℕ
  gather tolerance p j [] g sum used = (g, sum, used)
  gather tolerance p j (q ∷ qs) g sum used =
      elim (not (has j used) && le (abs (sub q.price p.price)) tolerance) [
        | true ↦ gather tolerance p (suc j) qs (g ++ (q.index ∷ [])) (add sum q.price) (j ∷ used)
        | false ↦ gather tolerance p (suc j) qs g sum used
      ]

  abbrev pub gathered : W → ℕ → Pivot W → List (Pivot W) → List ℕ → List ℕ × W × List ℕ
  gathered tolerance i p ps used = gather tolerance p (suc i) ps (p.index ∷ []) p.price used

  abbrev pub group_of : List ℕ → W → EqualGroup W
  group_of g sum = record { price = div sum (of_ℕ (length g)); indices = g }

  -- The outer loop, from the position `i` on.
  unfoldable pub groups_from : W → ℕ → List (Pivot W) → List ℕ → List (EqualGroup W)
  groups_from tolerance i [] used = []
  groups_from tolerance i (p ∷ ps) used = elim (has i used) [
    | true ↦ groups_from tolerance (suc i) ps used
    | false ↦
        let (g, sum, used') = gathered tolerance i p ps used in
        elim (leb 2 (length g)) [
          | true ↦ group_of g sum ∷ groups_from tolerance (suc i) ps (i ∷ used')
          | false ↦ groups_from tolerance (suc i) ps used'
        ]
  ]

  unfoldable pub find_equal_levels : List (Pivot W) → PivotKind → W → List (EqualGroup W)
  find_equal_levels pivots kind tolerance =
      groups_from tolerance 0 (filter (λ p. same_kind p.kind kind) pivots) []

  unfoldable pub pivots_to_liquidity :
      List (Pivot W) → Timeframe → W → W → ℕ → List (LiquidityLevel W)
  pivots_to_liquidity pivots timeframe tolerance_atr atr_value now =
      let tol = mul tolerance_atr atr_value in
      map (λ p. level_of (swing_type p.kind) p.index timeframe p.price p.time) pivots
      ++ (map (λ g. level_of equal_high (first_index g.indices) timeframe g.price now)
            (find_equal_levels pivots high_pivot tol)
          ++ map (λ g. level_of equal_low (first_index g.indices) timeframe g.price now)
              (find_equal_levels pivots low_pivot tol))

  -- What one candle does to a level on this side: it sweeps it, it breaks it, or neither.
  unfoldable pub decides : Bool → W → W → Candle W → Option LiquidityState
  decides true price pen c =
      if lt (add price pen) c.high && lt c.close price
      then some swept
      else if lt price c.close
      then some broken
      else none
  decides false price pen c =
      if lt c.low (sub price pen) && lt price c.close
      then some swept
      else if lt c.close price
      then some broken
      else none

  abbrev pub touches : Bool → W → Candle W → Bool
  touches true price c = le price c.high
  touches false price c = le c.low price

  -- `touchedAt` after a candle that decides nothing.
  abbrev pub first_touch : Bool → W → Candle W → Option ℕ → Option ℕ
  first_touch side price c (some at) = some at
  first_touch side price c none = if touches side price c then some c.open_time else none

  -- The candle is closed, and the level existed when it opened.
  abbrev pub counts : LiquidityLevel W → Candle W → Bool
  counts level c =
      c.is_closed && not (not (is_derived level.type) && leb c.open_time level.detected_at)

  -- The loop, with `touchedAt`.
  unfoldable pub interaction_from :
      LiquidityLevel W → W → List (Candle W) → Option ℕ → LiquidityState × Option ℕ
  interaction_from level pen [] (some at) = (touched, some at)
  interaction_from level pen [] none = (level.state, none)
  interaction_from level pen (c ∷ cs) touched_at = elim (counts level c) [
    | false ↦ interaction_from level pen cs touched_at
    | true ↦ elim (decides (is_high_side level.type) level.price pen c) [
      | some state ↦ (state, some c.open_time)
      | none ↦
          interaction_from level pen cs
            (first_touch (is_high_side level.type) level.price c touched_at)
    ]
  ]

  unfoldable pub classify_level_interaction :
      LiquidityLevel W → List (Candle W) → W → W → LiquidityState × Option ℕ
  classify_level_interaction level candles sweep_penetration_atr atr_value =
      interaction_from level (mul sweep_penetration_atr atr_value) candles none
