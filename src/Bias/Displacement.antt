-- ===== src/Bias/Displacement.antt =====
-- packages/trading-core/src/engine.ts: which candles are displacements.
use mmxm.Prelude.{
  ℕ, suc, ◌+◌, ◌≡◌, refl, true, Option, none, some, List, [], ◌∷◌, arith, get_elem?, All,
  Bool-cases, inl, inr,
}
use mmxm.Prelude.Loops.{All-map'}
use mmxm.Double.{Double}
use mmxm.Types.{Candle}
use mmxm.Measure.{body, range}
use mmxm.Bias.{is_displacement, displacements_from, displacement_indices}

module _ {W : Type 0} ⦃d : Double W⦄ (min_body_atr min_range_atr : W) where
  open d use {mul, le}

  -- The candle at `offset` is closed, has an ATR, and its body and its range reach their multiples
  -- of that ATR.
  pub record IsDisplaced (cs : List (Candle W)) (atrs : List (Option W)) (start i : ℕ)
      : Type 0 where
    pub offset : ℕ
    pub position : i ≡ start + offset
    pub candle : Candle W
    pub atr_value : W
    pub found : get_elem? cs offset ≡ some candle
    pub found_atr : get_elem? atrs offset ≡ some (some atr_value)
    pub closed : candle.is_closed ≡ true
    pub body_reaches : le (mul min_body_atr atr_value) (body candle) ≡ true
    pub range_reaches : le (mul min_range_atr atr_value) (range candle) ≡ true

  IsDisplaced-cons :
      (c : Candle W) (a : Option W) (cs : List (Candle W)) (atrs : List (Option W)) (start i : ℕ)
      → IsDisplaced cs atrs (suc start) i
      → IsDisplaced (c ∷ cs) (a ∷ atrs) start i
  IsDisplaced-cons c a cs atrs start i r = record {
    offset = suc r.offset;
    position = let p = r.position in omega arith;
    candle = r.candle;
    atr_value = r.atr_value;
    found = r.found;
    found_atr = r.found_atr;
    closed = r.closed;
    body_reaches = r.body_reaches;
    range_reaches = r.range_reaches;
  }

  IsDisplaced-head :
      (c : Candle W) (a : Option W) (cs : List (Candle W)) (atrs : List (Option W)) (start : ℕ)
      → is_displacement min_body_atr min_range_atr c a ≡ true
      → IsDisplaced (c ∷ cs) (a ∷ atrs) start start
  unfolding is_displacement
  IsDisplaced-head c none cs atrs start e = cc
  IsDisplaced-head c (some v) cs atrs start e = record {
    offset = 0;
    position = omega arith;
    candle = c;
    atr_value = v;
    found = refl;
    found_atr = refl;
    closed = ground arith;
    body_reaches = ground arith;
    range_reaches = ground arith;
  }

  displacements_from-IsDisplaced :
      (start : ℕ) (cs : List (Candle W)) (atrs : List (Option W))
      → All
          (IsDisplaced cs atrs start)
          (displacements_from min_body_atr min_range_atr start cs atrs)
  unfolding displacements_from
  displacements_from-IsDisplaced start (c ∷ cs) (a ∷ atrs) =
      let later =
        All-map' (displacements_from min_body_atr min_range_atr (suc start) cs atrs)
          (IsDisplaced-cons c a cs atrs start)
          (displacements_from-IsDisplaced (suc start) cs atrs) in
      elim (Bool-cases (is_displacement min_body_atr min_range_atr c a)) [
        | inl e ↦ rw e (IsDisplaced-head c a cs atrs start e, later)
        | inr e ↦ rw e later
      ]
  displacements_from-IsDisplaced start [] atrs = tt
  displacements_from-IsDisplaced start (c ∷ cs) [] = tt

  -- Every reported displacement is a closed candle of the array whose body and range are at least
  -- the given multiples of the ATR at the same index.
  pub displacement_indices-IsDisplaced :
      (candles : List (Candle W)) (atr_arr : List (Option W))
      → All
          (IsDisplaced candles atr_arr 0)
          (displacement_indices candles atr_arr min_body_atr min_range_atr)
  unfolding displacement_indices
  displacement_indices-IsDisplaced candles atr_arr =
      displacements_from-IsDisplaced 0 candles atr_arr
