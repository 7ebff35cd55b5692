-- ===== src/Pivots/Sound.antt =====
-- packages/trading-core/src/pivots.ts: which pivots `findPivots` reports.
use mmxm.Prelude.{
  ℕ, ◌+◌, ◌-◌, ◌≤◌, ◌<◌, ◌≡◌, refl, sym, ◌∙◌, Bool, true, some, List, [], ◌∷◌, arith, if◌then◌else◌,
  Bool-cases, inl, inr, length, get_elem?, All, upto, Memᴰ,
}
use mmxm.Prelude.Loops.{
  get_elem?-lt, All-count_from, All-mem, All-flat_map, All-append, mem-count_from, mem-flat_map,
  mem-append_right,
}
use mmxm.Double.{Double}
use mmxm.Types.{Candle, Pivot, PivotKind, high_pivot, low_pivot}
use mmxm.Pivots.{scan, pivot, tops, undercuts, pivots_of, pivots_at, find_pivots}
use mmxm.Pivots.Window.{Clear, scan-Clear_high, scan_high_of_Clear, scan_swap}

module _ {W : Type 0} ⦃d : Double W⦄ (cs : List (Candle W)) (left right : ℕ) where
  -- Every other candle of the window, `left` bars before `i` to `right` bars after it, fails the
  -- test.
  abbrev pub Stands : (Candle W → Bool) → ℕ → Type 0
  Stands test i = (j : ℕ) → i ≤ j + left → j ≤ i + right → Clear cs i test j

  -- The price that a pivot of this kind reports, and the test that no neighbour may pass.
  abbrev pub price_of : PivotKind → Candle W → W
  price_of high_pivot c = c.high
  price_of low_pivot c = c.low

  abbrev pub rival : PivotKind → Candle W → Candle W → Bool
  rival high_pivot = tops
  rival low_pivot = undercuts

  -- A pivot of the source's loop: its window lies inside the array, and its candle's high (low) is beyond
  -- that of every other candle of the window. The candles may be open.
  pub record IsPivot (p : Pivot W) : Type 0 where
    pub candle : Candle W
    pub found : get_elem? cs p.index ≡ some candle
    pub bars_before : left ≤ p.index
    pub bars_after : p.index + right < length cs
    pub entry : p ≡ pivot p.index candle (price_of p.kind candle) p.kind
    pub extreme : Stands (rival p.kind candle) p.index

  module _ (i : ℕ) (i_low : left ≤ i) (i_high : i + right < length cs) where
    abbrev flags : (p q : Candle W → Bool) → Bool × Bool
    flags p q = scan p q cs i (upto (i - left) (i + right + 1)) true true

    Stands-of_flag : (p q : Candle W → Bool) → (flags p q).0 ≡ true → Stands p i
    Stands-of_flag p q e j h k =
        All-mem (Clear cs i p) (upto (i - left) (i + right + 1))
          (scan-Clear_high p q cs i (upto (i - left) (i + right + 1)) true true e).1
          (mem-count_from (i - left) (i + right + 1 - (i - left)) j (omega arith) (omega arith))

    flag_of_Stands : (p q : Candle W → Bool) → Stands p i → (flags p q).0 ≡ true
    flag_of_Stands p q s = scan_high_of_Clear p q cs i (upto (i - left) (i + right + 1)) true (
        All-count_from (Clear cs i p) (i - left) (i + right + 1 - (i - left))
          (λ j h k. s j (omega arith) (omega arith)))

    is_pivot :
        (kind : PivotKind) (c : Candle W)
        → get_elem? cs i ≡ some c
        → Stands (rival kind c) i
        → IsPivot (pivot i c (price_of kind c) kind)
    is_pivot kind c found s = record {
      candle = c;
      found = found;
      bars_before = i_low;
      bars_after = i_high;
      entry = refl;
      extreme = s;
    }

    pivots_at-IsPivot : All IsPivot (pivots_at cs left right i)
    unfolding pivots_at pivots_of
    pivots_at-IsPivot =
        let (c, found) = get_elem?-lt cs i (omega arith) in
        let tests = flags (tops c) (undercuts c) in
        rw (found, pivots_at)
          (All-append IsPivot (if tests.0 then pivot i c c.high high_pivot ∷ [] else [])
            (if tests.1 then pivot i c c.low low_pivot ∷ [] else [])
            (elim (Bool-cases tests.0) [
              | inl e ↦
                  rw e (is_pivot high_pivot c found (Stands-of_flag (tops c) (undercuts c) e), tt)
              | inr e ↦ rw e tt
            ])
            (elim (Bool-cases tests.1) [
              | inl e ↦ rw e (
                is_pivot low_pivot c found (
                    Stands-of_flag (undercuts c) (tops c) (
                      sym (
                        scan_swap cs i (tops c) (undercuts c) (upto (i - left) (i + right + 1)) true
                          true)
                      ∙ e)),
                tt,
              )
              | inr e ↦ rw e tt
            ]))

    mem-pivots_at :
        (kind : PivotKind) (c : Candle W)
        → get_elem? cs i ≡ some c
        → Stands (rival kind c) i
        → Memᴰ (pivot i c (price_of kind c) kind) (pivots_at cs left right i)
    unfolding pivots_at pivots_of
    mem-pivots_at high_pivot c e s =
        let tests = flags (tops c) (undercuts c) in
        let set : tests.0 ≡ true = flag_of_Stands (tops c) (undercuts c) s in
        rw (e, pivots_at) (rw set (Memᴰ.head refl))
    mem-pivots_at low_pivot c e s =
        let tests = flags (tops c) (undercuts c) in
        let set : tests.1 ≡ true =
          scan_swap cs i (tops c) (undercuts c) (upto (i - left) (i + right + 1)) true true
          ∙ flag_of_Stands (undercuts c) (tops c) s in
        rw (e, pivots_at)
          (mem-append_right (if tests.0 then pivot i c c.high high_pivot ∷ [] else [])
            (if tests.1 then pivot i c c.low low_pivot ∷ [] else []) (rw set (Memᴰ.head refl)))

  -- Every reported pivot has its `left` bars before it and its `right` bars after it inside the
  -- array, and its candle's high (low) is beyond that of every other candle of that window.
  pub find_pivots-IsPivot : All IsPivot (find_pivots cs left right)
  unfolding find_pivots
  find_pivots-IsPivot =
      All-flat_map IsPivot (pivots_at cs left right) (upto left (length cs - right)) (
        All-count_from (λ i. All IsPivot (pivots_at cs left right i)) left
          (length cs - right - left) (λ i h k. pivots_at-IsPivot i h (omega arith)))

  -- Conversely a candle with that much room and beyond its whole window in that way is reported,
  -- whether or not it and the candles of the window are closed.
  pub mem-find_pivots :
      (kind : PivotKind) (i : ℕ) (c : Candle W)
      → left ≤ i
      → i + right < length cs
      → get_elem? cs i ≡ some c
      → Stands (rival kind c) i
      → Memᴰ (pivot i c (price_of kind c) kind) (find_pivots cs left right)
  unfolding find_pivots
  mem-find_pivots kind i c h k found s =
      mem-flat_map (pivots_at cs left right) (upto left (length cs - right))
        (mem-count_from left (length cs - right - left) i h (omega arith))
        (mem-pivots_at i h k kind c found s)
