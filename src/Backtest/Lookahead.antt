-- ===== src/Backtest/Lookahead.antt =====
-- apps/worker/src/backtest-runner.ts: what the engine sees at a step of the walk.
use mmxm.Prelude.{
  ℕ, ◌+◌, ◌<◌, ◌≡◌, refl, ap, false, List, [], ◌∷◌, ◌++◌, leb, All, length, slice_last, Bool-cases,
  inl, inr, arith,
}
use mmxm.Prelude.Loops.{take-append_le}
use mmxm.Types.{Timeframe, m1, m5, m15, h1, h4, d1, Candle}
use mmxm.Backtest.{slice, visible}

module _ {W : Type 0} where
  slice_later :
      (cut : ℕ) (later : List (Candle W))
      → All (λ c. cut < c.open_time) later
      → slice cut later ≡ []
  unfolding slice
  slice_later cut [] h = refl
  slice_later cut (c ∷ cs) (h, hs) =
      let late : leb c.open_time cut ≡ false = ground arith in rw late (slice_later cut cs hs)

  slice-append :
      (cut : ℕ) (cs later : List (Candle W))
      → All (λ c. cut < c.open_time) later
      → slice cut (cs ++ later) ≡ slice cut cs
  unfolding slice
  slice-append cut [] later h = slice_later cut later h
  slice-append cut (c ∷ cs) later h = elim (Bool-cases (leb c.open_time cut)) [
    | inl e ↦ rw (e, slice-append cut cs later h) refl
    | inr e ↦ rw (e, slice-append cut cs later h) refl
  ]

  -- Candles that open after the cut do not change what the engine sees at a step of the walk, on any
  -- timeframe: the step at an index of M15 depends on no later candle.
  pub visible-append :
      (history later : Timeframe → List (Candle W)) (i cut : ℕ) (tf : Timeframe)
      → i < length (history m15)
      → All (λ c. cut < c.open_time) (later tf)
      → visible (λ t. history t ++ later t) i cut tf ≡ visible history i cut tf
  unfolding visible
  visible-append history later i cut m1 h k = ap (slice_last 100) (slice-append cut _ _ k)
  visible-append history later i cut m5 h k = ap (slice_last 200) (slice-append cut _ _ k)
  visible-append history later i cut m15 h k = take-append_le (i + 1) (history m15) _ (omega arith)
  visible-append history later i cut h1 h k = ap (slice_last 120) (slice-append cut _ _ k)
  visible-append history later i cut h4 h k = ap (slice_last 90) (slice-append cut _ _ k)
  visible-append history later i cut d1 h k = ap (slice_last 60) (slice-append cut _ _ k)
