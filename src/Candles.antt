-- ===== src/Candles.antt =====
-- apps/worker/src/candles.ts: the candles that are loaded from the rows of a query: the latest revision
-- for each opening time, in ascending order. A row is the candle it is turned into.
pub mod Latest
pub mod Recent
pub mod Sorted
mod Tests
use mmxm.Prelude.{
  ℕ, List, [], ◌∷◌, ltb, leb, ◌==◌, if◌then◌else◌, foldl, sort_by, filter, take, ◌&&◌, Bool,
}
use mmxm.Types.{Candle}

module _ {W : Type 0} where
  -- One round of the loop: `byTime.set` keeps the place of a key that is there.
  pub upsert : Candle W → List (Candle W) → List (Candle W)
  upsert r [] = r ∷ []
  upsert r (x ∷ xs) =
      let rest = upsert r xs in
      if x.open_time == r.open_time
      then (if ltb x.revision r.revision then r ∷ xs else x ∷ xs)
      else x ∷ rest

  pub by_time : List (Candle W) → List (Candle W) → List (Candle W)
  by_time m [] = m
  by_time m (r ∷ rows) = by_time (upsert r m) rows

  pub ascending : List (Candle W) → List (Candle W)
  ascending = sort_by (λ a b. leb a.open_time b.open_time)

  -- `loadCandleRange`, with the query's rows.
  pub load_candle_range : List (Candle W) → List (Candle W)
  load_candle_range rows = ascending (by_time [] rows)
