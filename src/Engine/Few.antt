-- ===== src/Engine/Few.antt =====
-- packages/trading-core/src/engine.ts: `analyze` with too few closed candles.
use mmxm.Prelude.{ℕ, ◌≡◌, refl, true, ltb, String, [], length}
use mmxm.Double.{Double}
use mmxm.Types.{m15, MmxmAnalysisInput}
use mmxm.Measure.{closed_only}
use mmxm.Engine.{read_market, analyze}
use mmxm.Engine.Outcome.{insufficient_candles, stop, unless}

module _ {W : Type 0} ⦃d : Double W⦄ where
  -- Fewer than 30 closed M15 candles are refused, with no reasons.
  pub analyze_few :
      (input : MmxmAnalysisInput W) (version : String) (now : ℕ) (uuid : String)
      → ltb (length (closed_only (input.candles m15))) 30 ≡ true
      → analyze input version now uuid ≡ stop (record { reasons = []; why = insufficient_candles })
  unfolding analyze read_market unless
  analyze_few input version now uuid few = rw few refl
