-- ===== src/Structure/Breaks.antt =====
-- packages/trading-core/src/structure.ts: structure events and the closes they stand for.
use mmxm.Prelude.{
  ℕ, zero, suc, ◌+◌, ◌-◌, ◌≤◌, ◌<◌, ◌≡◌, refl, true, Option, none, some, List, [], ◌∷◌, arith, ap,
  ltb, leb, length, drop, get_elem?, All, Memᴰ, Bool-cases, Option-cases, inl, inr, sort_by,
}
use mathlib.Core.Option.{some-injective}
use mmxm.Prelude.Loops.{mem-sort_by, All-of_mem}
use mmxm.Double.{Double}
use mmxm.Types.{Timeframe, Candle, Pivot, Trend, Side, StructureEvent}
use mmxm.Structure.{
  infer_trend, break_side, break_from, first_break, structure_from, trend_of, detect_structure,
  by_index, from_sorted,
}

module _ {W : Type 0} ⦃d : Double W⦄ where
  -- The candle is closed, and it closes beyond the pivot to this side; or it does neither.
  abbrev pub Breaks : Pivot W → W → Side → Candle W → Type 0
  Breaks p buffer side c =
      (c.is_closed ≡ true) × (break_side p.kind p.price buffer c.close ≡ some side)

  abbrev pub Holds : Pivot W → W → Candle W → Type 0
  Holds p buffer c = c.is_closed ≡ true → break_side p.kind p.price buffer c.close ≡ none

  -- `k` is the index of the first break in a list that begins at the index `start`.
  pub record IsFirst (p : Pivot W) (buffer : W) (cs : List (Candle W)) (start k : ℕ) (side : Side)
      : Type 0 where
    pub candle : Candle W
    pub after : start ≤ k
    pub found : get_elem? cs (k - start) ≡ some candle
    pub breaks : Breaks p buffer side candle
    pub earlier :
        (j : ℕ) (c : Candle W) → start + j < k → get_elem? cs j ≡ some c → Holds p buffer c

  IsFirst-cons :
      (p : Pivot W) (buffer : W) (c : Candle W) (cs : List (Candle W)) (start k : ℕ) (side : Side)
      → Holds p buffer c
      → IsFirst p buffer cs (suc start) k side
      → IsFirst p buffer (c ∷ cs) start k side
  IsFirst-cons p buffer c cs start k side h r = record {
    candle = r.candle;
    after = let later = r.after in omega arith;
    found =
        let later = r.after in
        let step : k - start ≡ suc (k - suc start) = omega arith in rw step r.found;
    breaks = r.breaks;
    earlier = earlier;
  }
    where
      earlier :
          (j : ℕ) (o : Candle W) → start + j < k → get_elem? (c ∷ cs) j ≡ some o → Holds p buffer o
      earlier zero o lt e = rw (← some-injective c o e) h
      earlier (suc j) o lt e = r.earlier j o (omega arith) e

  pub break_from-IsFirst :
      (p : Pivot W) (buffer : W) (start : ℕ) (cs : List (Candle W)) (k : ℕ) (side : Side)
      → break_from p buffer start cs ≡ some (k, side)
      → IsFirst p buffer cs start k side
  unfolding break_from
  break_from-IsFirst p buffer start [] k side e = cc
  break_from-IsFirst p buffer start (c ∷ cs) k side e = elim (Bool-cases c.is_closed) [
    | inr is_open ↦
        IsFirst-cons p buffer c cs start k side (λ closed. cc)
          (break_from-IsFirst p buffer (suc start) cs k side (rw (is_open, break_from) at e))
    | inl closed ↦ elim (Option-cases (break_side p.kind p.price buffer c.close)) [
      | inl inside ↦
          IsFirst-cons p buffer c cs start k side (λ _. inside)
            (break_from-IsFirst p buffer (suc start) cs k side
              (rw (closed, inside, break_from) at e))
      | inr (s, outside) ↦
          let now = some-injective _ _ (rw (closed, outside, break_from) at e) in
          let same_k : start ≡ k = ap (λ r. r.0) now in
          let same_side : s ≡ side = ap (λ r. r.1) now in
          record {
            candle = c;
            after = omega arith;
            found = let none_between : k - start ≡ 0 = omega arith in rw none_between;
            breaks = (closed, rw (← same_side) outside);
            earlier = λ j o lt _. absurd (omega arith);
          }
    ]
  ]

  -- What an event says: a pivot of the list, and the first closed candle after it whose close is
  -- beyond the pivot's price by more than the buffer, on the side that the event reports.
  pub record IsBreak (candles : List (Candle W)) (buffer : W) (pivots : List (Pivot W))
      (e : StructureEvent W) : Type 0 where
    pub source : Pivot W
    pub listed : Memᴰ source pivots
    pub price : e.break_price ≡ source.price
    pub index : e.pivot_index ≡ source.index
    pub is_first :
        IsFirst source buffer
          (drop (suc source.index) candles)
          (suc source.index)
          e.break_candle_index
          e.direction

  module _ (candles : List (Candle W)) (timeframe : Timeframe) (buffer : W)
      (all : List (Pivot W)) where
    structure_from-IsBreak :
        (prev : Pivot W) (before rest : List (Pivot W)) (trend : Option Trend)
        → All (λ p. Memᴰ p all) rest
        → All
            (IsBreak candles buffer all)
            (structure_from candles timeframe buffer prev before rest trend)
    unfolding structure_from
    structure_from-IsBreak prev before [] trend m = tt
    structure_from-IsBreak prev before (cur ∷ rest) trend (m, ms) =
        elim (Option-cases (first_break candles timeframe buffer cur)) [
          | inl e ↦
              rw (e, structure_from)
                (structure_from-IsBreak cur (cur ∷ before) rest (infer_trend prev cur trend) ms)
          | inr ((k, side), e) ↦
              rw (e, structure_from)
                (
                  record {
                    source = cur;
                    listed = m;
                    price = refl;
                    index = refl;
                    is_first =
                        break_from-IsFirst cur buffer (suc cur.index) (drop (suc cur.index) candles)
                          k side e;
                  },
                  structure_from-IsBreak cur (cur ∷ before) rest (some (trend_of side)) ms,
                )
        ]

    from_sorted-IsBreak :
        (sorted : List (Pivot W))
        → All (λ p. Memᴰ p all) sorted
        → All (IsBreak candles buffer all) (from_sorted candles timeframe buffer sorted)
    unfolding from_sorted
    from_sorted-IsBreak [] m = tt
    from_sorted-IsBreak (p ∷ ps) (_, ms) = structure_from-IsBreak p (p ∷ []) ps none ms

  -- Every event of `detectStructure` names a pivot that was given and the first closed candle after
  -- that pivot whose close is beyond the pivot's price by more than the buffer, on the side that it
  -- reports; no closed candle in between closes beyond it.
  pub detect_structure-IsBreak :
      (candles : List (Candle W)) (pivots : List (Pivot W)) (timeframe : Timeframe)
      (buffer_atr atr_value : W)
      → All
          (IsBreak candles (d.mul buffer_atr atr_value) pivots)
          (detect_structure candles pivots timeframe buffer_atr atr_value)
  unfolding detect_structure by_index
  detect_structure-IsBreak candles pivots timeframe buffer_atr atr_value =
      let buffer = d.mul buffer_atr atr_value in
      let earlier = λ (a b : Pivot W). leb a.index b.index in
      elim (Bool-cases (ltb (length pivots) 2)) [
        | inl few ↦ rw few tt
        | inr enough ↦ rw enough (
            from_sorted-IsBreak candles timeframe buffer pivots (by_index pivots)
              (All-of_mem (sort_by earlier pivots) (λ p m. mem-sort_by earlier pivots m)))
      ]
