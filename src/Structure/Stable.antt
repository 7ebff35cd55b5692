-- ===== src/Structure/Stable.antt =====
-- packages/trading-core/src/structure.ts: breaks of structure and appended candles.
use mmxm.Prelude.{
  ℕ, zero, suc, ◌≡◌, refl, sym, Option, none, some, List, [], ◌∷◌, ◌++◌, ltb, length, drop, All,
  Memᴰ, Bool-cases, Option-cases, inl, inr,
}
use mathlib.Core.Path.{subst₂}
use mmxm.Prelude.Loops.{All-map'}
use mmxm.Double.{Double}
use mmxm.Types.{Timeframe, Candle, Pivot, Trend, Side, StructureEvent}
use mmxm.Structure.{
  infer_trend, break_kind, break_side, break_from, first_break, break_event, structure_from,
  trend_of, detect_structure, by_index, from_sorted,
}

drop-append {ℓ} :
    {A : Type ℓ} (n : ℕ) (xs ys : List A)
    → (rest : List A) × (drop n (xs ++ ys) ≡ drop n xs ++ rest)
drop-append zero xs ys = (ys, refl)
drop-append (suc n) [] ys = (drop (suc n) ys, refl)
drop-append (suc n) (x ∷ xs) ys = drop-append n xs ys

module _ {W : Type 0} ⦃d : Double W⦄ where
  break_from-append :
      (p : Pivot W) (buffer : W) (start : ℕ) (cs more : List (Candle W)) (r : ℕ × Side)
      → break_from p buffer start cs ≡ some r
      → break_from p buffer start (cs ++ more) ≡ some r
  unfolding break_from
  break_from-append p buffer start [] more r e = cc
  break_from-append p buffer start (c ∷ cs) more r e = elim (Bool-cases c.is_closed) [
    | inr is_open ↦
        rw (is_open, break_from)
          (break_from-append p buffer (suc start) cs more r (rw (is_open, break_from) at e))
    | inl closed ↦ elim (Option-cases (break_side p.kind p.price buffer c.close)) [
      | inl inside ↦
          rw (closed, inside, break_from)
            (break_from-append p buffer (suc start) cs more r
              (rw (closed, inside, break_from) at e))
      | inr (s, outside) ↦ rw (closed, outside, break_from) (rw (closed, outside, break_from) at e)
    ]
  ]

  module _ (cs : List (Candle W)) (timeframe : Timeframe) (buffer : W) where
    structure_from_done :
        (prev : Pivot W) (before : List (Pivot W)) (trend : Option Trend)
        → structure_from cs timeframe buffer prev before [] trend ≡ []
    unfolding structure_from
    structure_from_done prev before trend = refl

    structure_from_held :
        (prev cur : Pivot W) (before rest : List (Pivot W)) (trend : Option Trend)
        → first_break cs timeframe buffer cur ≡ none
        → structure_from cs timeframe buffer prev before (cur ∷ rest) trend
          ≡ structure_from cs timeframe buffer cur (cur ∷ before) rest (infer_trend prev cur trend)
    unfolding structure_from
    structure_from_held prev cur before rest trend e = rw (e, structure_from)

    structure_from_broken :
        (prev cur : Pivot W) (before rest : List (Pivot W)) (trend : Option Trend) (k : ℕ)
        (side : Side)
        → first_break cs timeframe buffer cur ≡ some (k, side)
        → structure_from cs timeframe buffer prev before (cur ∷ rest) trend
          ≡ break_event cs timeframe buffer
              (break_kind (infer_trend prev cur trend) before cur side)
              cur
              k
              side
            ∷ structure_from cs timeframe buffer cur (cur ∷ before) rest (some (trend_of side))
    unfolding structure_from
    structure_from_broken prev cur before rest trend k side e = rw (e, structure_from)

  -- The two events are the same break, whatever their kinds.
  pub record SamePlace (e e' : StructureEvent W) : Type 0 where
    pub direction : e.direction ≡ e'.direction
    pub price : e.break_price ≡ e'.break_price
    pub pivot : e.pivot_index ≡ e'.pivot_index
    pub candle : e.break_candle_index ≡ e'.break_candle_index

  abbrev pub IsAmong : List (StructureEvent W) → StructureEvent W → Type 0
  IsAmong es e = (e' : StructureEvent W) × Memᴰ e' es × SamePlace e e'

  IsAmong-tail :
      (es : List (StructureEvent W)) (x e : StructureEvent W) → IsAmong es e → IsAmong (x ∷ es) e
  IsAmong-tail es x e (e', m, same) = (e', Memᴰ.tail m, same)

  module _ (cs more : List (Candle W)) (timeframe : Timeframe) (buffer : W) where
    first_break-append :
        (cur : Pivot W) (r : ℕ × Side)
        → first_break cs timeframe buffer cur ≡ some r
        → first_break (cs ++ more) timeframe buffer cur ≡ some r
    first_break-append cur r e =
        let (rest, split) = drop-append (suc cur.index) cs more in
        rw split (break_from-append cur buffer (suc cur.index) (drop (suc cur.index) cs) rest r e)

    -- One round of the outer loop adds at most one event in front.
    structure_from-append :
        (prev : Pivot W) (before rest : List (Pivot W)) (trend trend' : Option Trend)
        → All
            (IsAmong (structure_from (cs ++ more) timeframe buffer prev before rest trend'))
            (structure_from cs timeframe buffer prev before rest trend)
    structure_from-append prev before [] trend trend' =
        rw (structure_from_done cs timeframe buffer prev before trend) tt
    structure_from-append prev before (cur ∷ rest) trend trend' =
        let t = infer_trend prev cur trend in
        let t' = infer_trend prev cur trend' in
        elim (Option-cases (first_break cs timeframe buffer cur)) [
          | inr ((k, side), e) ↦
              let next = some (trend_of side) in
              let e' = first_break-append cur (k, side) e in
              subst₂ (λ es fs. All (IsAmong es) fs)
                (sym (
                  structure_from_broken (cs ++ more) timeframe buffer prev cur before rest trend' k
                    side e'))
                (sym
                  (structure_from_broken cs timeframe buffer prev cur before rest trend k side e))
                (
                  (
                    break_event (cs ++ more) timeframe buffer (break_kind t' before cur side) cur k
                        side,
                    Memᴰ.head refl,
                    record { direction = refl; price = refl; pivot = refl; candle = refl },
                  ),
                  All-map' (structure_from cs timeframe buffer cur (cur ∷ before) rest next)
                      (λ x.
                        IsAmong-tail
                          (structure_from (cs ++ more) timeframe buffer cur (cur ∷ before) rest
                            next)
                          (break_event (cs ++ more) timeframe buffer (break_kind t' before cur side)
                            cur k side)
                          x)
                      (structure_from-append cur (cur ∷ before) rest next next),
                )
          | inl e ↦ elim (Option-cases (first_break (cs ++ more) timeframe buffer cur)) [
            | inl e' ↦
                rw
                  (
                    structure_from_held cs timeframe buffer prev cur before rest trend e,
                    structure_from_held (cs ++ more) timeframe buffer prev cur before rest trend'
                        e',
                  )
                  (structure_from-append cur (cur ∷ before) rest t t')
            | inr ((k, side), e') ↦
                let next = some (trend_of side) in
                subst₂ (λ es fs. All (IsAmong es) fs)
                  (sym (
                    structure_from_broken (cs ++ more) timeframe buffer prev cur before rest trend'
                      k side e'))
                  (sym (structure_from_held cs timeframe buffer prev cur before rest trend e))
                  (All-map' (structure_from cs timeframe buffer cur (cur ∷ before) rest t)
                    (λ x.
                      IsAmong-tail
                        (structure_from (cs ++ more) timeframe buffer cur (cur ∷ before) rest next)
                        (break_event (cs ++ more) timeframe buffer (break_kind t' before cur side)
                          cur k side)
                        x)
                    (structure_from-append cur (cur ∷ before) rest t next))
          ]
        ]

    from_sorted-append :
        (sorted : List (Pivot W))
        → All
            (IsAmong (from_sorted (cs ++ more) timeframe buffer sorted))
            (from_sorted cs timeframe buffer sorted)
    unfolding from_sorted
    from_sorted-append [] = tt
    from_sorted-append (p ∷ ps) = structure_from-append p (p ∷ []) ps none none

  -- With the same pivots and more candles, every break that was reported is reported again, at the
  -- same pivot and the same candle and to the same side. (Its kind may differ.)
  pub detect_structure-append :
      (cs more : List (Candle W)) (pivots : List (Pivot W)) (timeframe : Timeframe)
      (buffer_atr atr_value : W)
      → All
          (IsAmong (detect_structure (cs ++ more) pivots timeframe buffer_atr atr_value))
          (detect_structure cs pivots timeframe buffer_atr atr_value)
  unfolding detect_structure
  detect_structure-append cs more pivots timeframe buffer_atr atr_value =
      elim (Bool-cases (ltb (length pivots) 2)) [
        | inl few ↦ rw few tt
        | inr enough ↦
            rw enough
              (from_sorted-append cs more timeframe (d.mul buffer_atr atr_value) (by_index pivots))
      ]
