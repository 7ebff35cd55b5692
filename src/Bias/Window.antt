-- ===== src/Bias/Window.antt =====
-- packages/trading-core/src/engine.ts: the dealing range of the last candles.
use mmxm.Prelude.{
  ℕ, zero, suc, ◌-◌, ◌≤◌, ◌<◌, ◌≡◌, Bool, true, false, none, some, List, arith, ltb, if◌then◌else◌,
  length, slice_last, All, ◌⊎◌, le→ltb-false, lt→ltb,
}
use mmxm.Prelude.Loops.{All-drop, length-drop}
use mmxm.Double.{Double}
use mmxm.Types.{Candle, DealingRange}
use mmxm.Measure.{closed_only, closed_only-All, closed_only_of_All}
use mmxm.Bias.{dealing_range}

length-slice_last_ge :
    {A : Type 0} (n : ℕ) (xs : List A)
    → 10 ≤ length xs
    → (n ≡ 0) ⊎ (10 ≤ n)
    → 10 ≤ length (slice_last n xs)
length-slice_last_ge zero xs h k = h
length-slice_last_ge (suc n) xs h k = omega (arith, length-drop (length xs - suc n) xs)

length-slice_last_lt :
    {A : Type 0} (n : ℕ) (xs : List A) → 0 < n → n < 10 → length (slice_last n xs) < 10
length-slice_last_lt zero xs h k = absurd (omega arith)
length-slice_last_lt (suc n) xs h k = omega (arith, length-drop (length xs - suc n) xs)

pub if-false-some :
    {A : Type 0} {b : Bool} (x : A) → b ≡ false → (y : A) × ((if b then none else some x) ≡ some y)
if-false-some x e = (x, rw e)

module _ {W : Type 0} where
  slice_last-All :
      (n : ℕ) (cs : List (Candle W))
      → All (λ c. c.is_closed ≡ true) cs
      → All (λ c. c.is_closed ≡ true) (slice_last n cs)
  slice_last-All zero cs h = h
  slice_last-All (suc n) cs h = All-drop (λ c. c.is_closed ≡ true) (length cs - suc n) cs h

  -- The candles of a window over closed candles, as many as there are up to its width.
  abbrev window : ℕ → List (Candle W) → List (Candle W)
  window n cs = closed_only (slice_last n (closed_only cs))

  window-eq : (n : ℕ) (cs : List (Candle W)) → window n cs ≡ slice_last n (closed_only cs)
  window-eq n cs =
      closed_only_of_All (slice_last n (closed_only cs))
        (slice_last-All n (closed_only cs) (closed_only-All cs))

  module _ ⦃d : Double W⦄ (n : ℕ) (cs : List (Candle W)) where
    pub dealing_range-some :
        10 ≤ length (closed_only cs)
        → (n ≡ 0) ⊎ (10 ≤ n)
        → (r : DealingRange W) × (dealing_range (slice_last n (closed_only cs)) ≡ some r)
    unfolding dealing_range
    dealing_range-some enough wide =
        let closed = closed_only (slice_last n (closed_only cs)) in
        let many = length-slice_last_ge n (closed_only cs) enough wide in
        let test : ltb (length closed) 10 ≡ false =
          le→ltb-false (length closed) 10 (rw (window-eq n cs) many) in
        if-false-some _ test

    pub dealing_range-none : 0 < n → n < 10 → dealing_range (slice_last n (closed_only cs)) ≡ none
    unfolding dealing_range
    dealing_range-none some_bars few =
        let closed = closed_only (slice_last n (closed_only cs)) in
        let short = length-slice_last_lt n (closed_only cs) some_bars few in
        let test : ltb (length closed) 10 ≡ true =
          lt→ltb (length closed) 10 (rw (window-eq n cs) short) in
        rw test
