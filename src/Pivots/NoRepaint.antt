-- ===== src/Pivots/NoRepaint.antt =====
-- packages/trading-core/src/pivots.ts: pivots and appended candles.
use mmxm.Prelude.{
  ℕ, ◌+◌, ◌-◌, ◌≤◌, ◌<◌, ◌≡◌, refl, ◌∙◌, Bool, true, false, not, ◌&&◌, List, [], ◌∷◌, ◌++◌, arith,
  ◌==◌, if◌then◌else◌, length, get_elem?, All, flat_map, count_from, upto, inl, inr, Bool-cases, ap,
  Option-cases,
}
use mmxm.Prelude.Loops.{
  length-append, get_elem?-append, get_elem?-lt, All-count_from, flat_map-append, flat_map_congr,
  count_from-append,
}
use mmxm.Double.{Double}
use mmxm.Types.{Candle, Pivot}
use mmxm.Pivots.{scan, tops, undercuts, pivots_of, pivots_at, find_pivots}

-- The inner loop reads the array only at its indices.
scan_congr :
    {A : Type 0} (p q : A → Bool) (cs ds : List A) (i : ℕ) (js : List ℕ) (h l : Bool)
    → All (λ j. get_elem? cs j ≡ get_elem? ds j) js
    → scan p q cs i js h l ≡ scan p q ds i js h l
unfolding scan
scan_congr p q cs ds i [] h l e = refl
scan_congr p q cs ds i (j ∷ js) h l (e, es) = elim (Bool-cases (j == i)) [
  | inl same ↦ rw (same, scan) (scan_congr p q cs ds i js h l es)
  | inr other ↦ elim (Option-cases (get_elem? ds j)) [
    | inl missing ↦ rw (other, e, missing, scan) (scan_congr p q cs ds i js h l es)
    | inr (o, found) ↦
        let high' = if p o then false else h in
        let low' = if q o then false else l in
        rw (other, e, found, scan)
          (elim (Bool-cases (not high' && not low')) [
            | inl stop ↦ rw (stop, scan)
            | inr go ↦ rw (go, scan) (scan_congr p q cs ds i js high' low' es)
          ])
  ]
]

module _ {W : Type 0} ⦃d : Double W⦄ (cs more : List (Candle W)) (left right : ℕ) where
  pivots_at-append :
      (i : ℕ)
      → left ≤ i
      → i + right < length cs
      → pivots_at (cs ++ more) left right i ≡ pivots_at cs left right i
  unfolding pivots_at
  pivots_at-append i h k =
      let (c, found) = get_elem?-lt cs i (omega arith) in
      let found' = get_elem?-append cs more i (omega arith) ∙ found in
      rw (found, found', pivots_at)
        (ap (pivots_of i c) (
          scan_congr (tops c) (undercuts c) (cs ++ more) cs i (upto (i - left) (i + right + 1)) true
            true
            (All-count_from (λ j. get_elem? (cs ++ more) j ≡ get_elem? cs j) (i - left)
              (i + right + 1 - (i - left)) (λ j p q. get_elem?-append cs more j (omega arith)))))

  -- However many candles are appended, the pivots already reported are reported again, in the same
  -- order and with nothing put between them.
  pub find_pivots-append :
      (rest : List (Pivot W)) × (find_pivots (cs ++ more) left right
        ≡ find_pivots cs left right ++ rest)
  unfolding find_pivots
  find_pivots-append =
      let n = length cs - right - left in
      let longer = length (cs ++ more) - right - left in
      let same =
        flat_map_congr (pivots_at (cs ++ more) left right) (pivots_at cs left right)
          (count_from left n)
          (All-count_from (λ i. pivots_at (cs ++ more) left right i ≡ pivots_at cs left right i)
            left n (λ i h k. pivots_at-append i h (omega arith))) in
      (
        flat_map (pivots_at (cs ++ more) left right) (count_from (left + n) (longer - n)),
        rw (
          count_from-append left n (longer - n) longer (omega (arith, length-append cs more)),
          flat_map-append,
          same,
        ),
      )
