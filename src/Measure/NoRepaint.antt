-- ===== src/Measure/NoRepaint.antt =====
-- packages/trading-core/src/measure.ts: the ATR and appended candles.
use mmxm.Prelude.{
  ℕ, suc, ◌+◌, ◌-◌, ◌≤◌, ◌<◌, ◌≡◌, refl, ap, sym, some, none, Option, List, [], ◌∷◌, ◌++◌, arith,
  ltb, length, last, take, drop, replicate, foldl, Bool-cases, inl, inr, ltb→lt, ltb-false→le,
  le→ltb-false,
}
use mmxm.Prelude.Loops.{
  length-append, take-append_le, drop-append_le, length-replicate, length-drop,
}
use mmxm.Double.{Double, of_ℕ}
use mmxm.Types.{Candle}
use mmxm.Measure.{true_ranges, true_range, smooth, atr_from, atr, atr_series}
use mathlib.Core.List.{append_assoc}

module _ {W : Type 0} ⦃d : Double W⦄ where
  open d use {add, div}

  length-true_ranges : (cs : List (Candle W)) → length (true_ranges cs) ≡ length cs - 1
  unfolding true_ranges
  length-true_ranges [] = omega arith
  length-true_ranges (c ∷ []) = omega arith
  length-true_ranges (prev ∷ cur ∷ cs) = omega (arith, length-true_ranges (cur ∷ cs))

  length-atr_from :
      (period : ℕ) (a : W) (trs : List W) → length (atr_from period a trs) ≡ length trs
  unfolding atr_from
  length-atr_from period a [] = refl
  length-atr_from period a (tr ∷ trs) = ap suc (length-atr_from period (smooth period a tr) trs)

  length-atr_series :
      (trs : List W) (period : ℕ)
      → length (atr_series trs period) ≡ period + suc (length trs - period)
  unfolding atr_series
  length-atr_series trs period =
      let start = div (foldl add (of_ℕ 0) (take period trs)) (of_ℕ period) in
      let later = drop period trs in
      omega (
        arith,
        length-append (replicate period none) (some start ∷ atr_from period start later),
        length-replicate {A = Option W} period none,
        length-atr_from period start later,
        length-drop period trs,
      )

  -- The ATR has one entry for each candle, whatever the period.
  pub length-atr : (cs : List (Candle W)) (period : ℕ) → length (atr cs period) ≡ length cs
  unfolding atr
  length-atr cs period = elim (Bool-cases (ltb (length cs) (period + 1))) [
    | inl e ↦ rw e (length-replicate (length cs) none)
    | inr e ↦
        rw (e, length-atr_series (true_ranges cs) period)
          (omega (
            arith,
            length-true_ranges cs,
            ltb→lt (length cs) (period + 1),
            (ltb-false→le (length cs) (period + 1) e),
          ))
  ]

  -- The ranges of a longer history begin with those of the shorter one.
  true_ranges-append :
      (cs more : List (Candle W))
      → (rest : List W) × (true_ranges (cs ++ more) ≡ true_ranges cs ++ rest)
  unfolding true_ranges
  true_ranges-append [] more = (true_ranges more, refl)
  true_ranges-append (c ∷ []) more = (true_ranges (c ∷ more), refl)
  true_ranges-append (prev ∷ cur ∷ cs) more =
      let (rest, e) = true_ranges-append (cur ∷ cs) more in (rest, ap (◌∷◌ (true_range cur prev)) e)

  atr_from-append :
      (period : ℕ) (a : W) (xs ys : List W)
      → (rest : List (Option W)) × (atr_from period a (xs ++ ys) ≡ atr_from period a xs ++ rest)
  unfolding atr_from
  atr_from-append period a [] ys = (atr_from period a ys, refl)
  atr_from-append period a (x ∷ xs) ys =
      let (rest, e) = atr_from-append period (smooth period a x) xs ys in
      (rest, ap (◌∷◌ (some (smooth period a x))) e)

  atr_series-append :
      (trs more : List W) (period : ℕ)
      → period ≤ length trs
      → (rest : List (Option W)) × (atr_series (trs ++ more) period ≡ atr_series trs period ++ rest)
  unfolding atr_series
  atr_series-append trs more period h =
      let start = div (foldl add (of_ℕ 0) (take period trs)) (of_ℕ period) in
      let (rest, e) = atr_from-append period start (drop period trs) more in
      (
        rest,
        rw (take-append_le period trs more h, drop-append_le period trs more h, e)
            (sym (
              append_assoc (replicate period none)
                (some start ∷ atr_from period start (drop period trs)) rest)),
      )

  -- Once a history is long enough for the period, the ATR of every candle in it stays the same
  -- when candles are appended.
  pub atr-append :
      (cs more : List (Candle W)) (period : ℕ)
      → period < length cs
      → (rest : List (Option W)) × (atr (cs ++ more) period ≡ atr cs period ++ rest)
  unfolding atr
  atr-append cs more period h =
      let (later, e) = true_ranges-append cs more in
      let enough : period ≤ length (true_ranges cs) = omega (arith, length-true_ranges cs) in
      let (rest, e') = atr_series-append (true_ranges cs) later period enough in
      let long = le→ltb-false (length cs) (period + 1) (omega arith) in
      let longer =
        le→ltb-false (length (cs ++ more)) (period + 1) (omega (arith, length-append cs more)) in
      (rest, rw (long, longer, e) e')

  last-atr_from :
      (period : ℕ) (a : W) (trs : List W) (xs : List (Option W))
      → (b : W) × (last (xs ++ (some a ∷ atr_from period a trs)) ≡ some (some b))
  unfolding atr_from
  last-atr_from period a trs (x ∷ y ∷ xs) = last-atr_from period a trs (y ∷ xs)
  last-atr_from period a trs (x ∷ []) = last-atr_from period a trs []
  last-atr_from period a [] [] = (a, refl)
  last-atr_from period a (tr ∷ trs) [] = last-atr_from period (smooth period a tr) trs []

  -- The ATR of the last candle is there once the history is longer than the period.
  pub last-atr :
      (cs : List (Candle W)) (period : ℕ)
      → period < length cs
      → (a : W) × (last (atr cs period) ≡ some (some a))
  unfolding atr atr_series
  last-atr cs period h =
      let long = le→ltb-false (length cs) (period + 1) (omega arith) in
      let trs = true_ranges cs in
      let start = d.div (foldl d.add (of_ℕ 0) (take period trs)) (of_ℕ period) in
      let (a, e) = last-atr_from period start (drop period trs) (replicate period none) in
      (a, rw long e)
