-- ===== src/Backtest.antt =====
-- apps/worker/src/backtest-runner.ts: the walk over the closes of M15 and the summary. The rows of the
-- database are the argument `history`; what `toFixed(1)` makes of a price is a parameter, `to_fixed`,
-- with the equality of two texts.
pub mod Lookahead
pub mod Outcomes
mod Tests
use mmxm.Prelude.{
  ℕ, zero, suc, ◌+◌, ◌-◌, Bool, true, false, not, ◌&&◌, ◌||◌, Option, none, some, List, [], ◌∷◌,
  ◌++◌, map, String, leb, ltb, if◌then◌else◌, length, filter, any, first, take, drop, slice_last,
  get_elem?, count_from, foldl,
}
use mmxm.Double.{Double, of_ℕ}
use mmxm.Types.{
  Timeframe, m1, m5, m15, h1, h4, d1, Candle, Direction, long, short, MmxmStrategyConfig,
  MmxmAnalysisInput, XauusdSignal, TakeProfit,
}
use mmxm.Engine.{analyze}
use mmxm.Engine.Outcome.{Run, go, stop, thrown}

pub data Result : Type 0 where
  win loss : Result

pub record Trade (W : Type 0) : Type 0 where
  pub time : ℕ
  pub direction : Direction
  pub entry : W
  pub sl : W
  pub tps : List W
  pub outcome : Option (Result × W)

-- The text by which a signal is known to have been seen.
pub record Key : Type 0 where
  pub direction : Direction
  pub entry : String
  pub sl : String

pub record Summary (W : Type 0) : Type 0 where
  pub total_signals : ℕ
  pub resolved : ℕ
  pub win_rate : Option W
  pub avg_rr : Option W

-- The arguments of a run: the configuration, the version, the rows, the clock and the ids at each
-- step, and the texts of prices.
pub record Setting (W : Type 0) : Type 0 where
  pub config : MmxmStrategyConfig W
  pub version : String
  pub history : Timeframe → List (Candle W)
  pub now : ℕ → ℕ
  pub uuid : ℕ → String
  pub to_fixed : W → String
  pub same_text : String → String → Bool

pub record Walk (W : Type 0) : Type 0 where
  pub seen : List Key
  pub signals : List (Trade W)

-- What the row of the run is left with: the summary and the trades, or the error.
pub data Backtest (W : Type 0) : Type 0 where
  completed : Summary W → List (Trade W) → Backtest W
  failed : Backtest W

abbrev pub same_direction : Direction → Direction → Bool
same_direction long long = true
same_direction short short = true
same_direction _ _ = false

abbrev pub is_resolved : {W : Type 0} → Trade W → Bool
is_resolved t = elim (t.outcome) [ none ↦ false | some _ ↦ true ]

abbrev is_win : {W : Type 0} → Option (Result × W) → Bool
is_win (some (win, _)) = true
is_win _ = false

abbrev rr_of : {W : Type 0} ⦃d : Double W⦄ → Option (Result × W) → W
rr_of none = of_ℕ 0
rr_of (some (_, r)) = r

-- A throw ends the walk.
abbrev pub then_walk : {A B : Type 0} → (A → Option B) → Option A → Option B
then_walk f none = none
then_walk f (some a) = f a

module _ {W : Type 0} where
  -- `slice`: the candles that opened at the cut or before.
  pub slice : ℕ → List (Candle W) → List (Candle W)
  slice cut cs = filter (λ c. leb c.open_time cut) cs

  -- `future` is the slice up to the cut, filtered to what opened after it.
  pub future : ℕ → List (Candle W) → List (Candle W)
  future cut cs = filter (λ c. ltb cut c.open_time) (slice cut cs)

  -- The candles that the engine is given at the index `i` of M15, whose candle opened at `cut`.
  pub visible : (Timeframe → List (Candle W)) → ℕ → ℕ → Timeframe → List (Candle W)
  visible history i cut m1 = slice_last 100 (slice cut (history m1))
  visible history i cut m5 = slice_last 200 (slice cut (history m5))
  visible history i cut m15 = take (i + 1) (history m15)
  visible history i cut h1 = slice_last 120 (slice cut (history h1))
  visible history i cut h4 = slice_last 90 (slice cut (history h4))
  visible history i cut d1 = slice_last 60 (slice cut (history d1))

module _ {W : Type 0} ⦃d : Double W⦄ where
  open d use {add, sub, div, neg, abs, le}

  abbrev sl_hit : Direction → W → Candle W → Bool
  sl_hit long sl c = le c.low sl
  sl_hit short sl c = le sl c.high

  abbrev tp_hit : Direction → W → Candle W → Bool
  tp_hit long tp c = le tp c.high
  tp_hit short tp c = le c.low tp

  -- The scan of the candles after the entry: the stop comes first where a candle touches both.
  pub scan : Direction → W → W → W → List (Candle W) → Option (Result × W)
  scan dir entry sl tp1 [] = none
  scan dir entry sl tp1 (c ∷ cs) =
      let rest = scan dir entry sl tp1 cs in
      if sl_hit dir sl c
      then some (loss, neg (of_ℕ 1))
      else if tp_hit dir tp1 c
      then some (win, div (abs (sub tp1 entry)) (abs (sub entry sl)))
      else rest

  -- Nothing is scanned without a first target.
  pub resolve : XauusdSignal W → Option (TakeProfit W) → List (Candle W) → Option (Result × W)
  resolve s none cs = none
  resolve s (some t) cs = scan s.direction s.preferred_entry s.stop_loss t.price cs

  pub trade_of : XauusdSignal W → ℕ → List (Candle W) → Trade W
  trade_of s cut m5_candles = record {
    time = cut;
    direction = s.direction;
    entry = s.preferred_entry;
    sl = s.stop_loss;
    tps = map (λ t. t.price) s.take_profits;
    outcome = resolve s (first s.take_profits) (future cut m5_candles);
  }

  pub summary_of : List (Trade W) → Summary W
  summary_of trades =
      let resolved = filter is_resolved trades in
      let n = length resolved in
      let wins = length (filter (λ t. is_win t.outcome) resolved) in
      record {
        total_signals = length trades;
        resolved = n;
        win_rate = if ltb 0 n then some (div (of_ℕ wins) (of_ℕ n)) else none;
        avg_rr =
            if ltb 0 n
            then some (div (foldl (λ a t. add a (rr_of t.outcome)) (of_ℕ 0) resolved) (of_ℕ n))
            else none;
      }

  pub key_of : Setting W → XauusdSignal W → Key
  key_of r s = record {
    direction = s.direction;
    entry = r.to_fixed s.preferred_entry;
    sl = r.to_fixed s.stop_loss;
  }

  pub same_key : Setting W → Key → Key → Bool
  same_key r a b =
      same_direction a.direction b.direction && r.same_text a.entry b.entry && r.same_text a.sl b.sl

  pub analysis_at : Setting W → ℕ → Candle W → Run (XauusdSignal W)
  analysis_at r i c =
      analyze (record { candles = visible r.history i c.open_time; config = r.config }) r.version
        (r.now i) (r.uuid i)

  -- What one turn of the loop does with the engine's result. `none` is a throw, which ends the run.
  pub record_signal : Setting W → ℕ → Run (XauusdSignal W) → Walk W → Option (Walk W)
  record_signal r cut thrown w = none
  record_signal r cut (stop _) w = some w
  record_signal r cut (go s) w =
      if any (same_key r (key_of r s)) w.seen
      then some w
      else some (record {
        seen = w.seen ++ key_of r s ∷ [];
        signals = w.signals ++ trade_of s cut (r.history m5) ∷ [];
      })

  pub walk : Setting W → ℕ → List (Candle W) → Walk W → Option (Walk W)
  walk r i [] w = some w
  walk r i (c ∷ cs) w =
      then_walk (λ next. walk r (suc i) cs next) (record_signal r c.open_time (analysis_at r i c) w)

  pub finish : Option (Walk W) → Backtest W
  finish none = failed
  finish (some w) = completed (summary_of w.signals) w.signals

  -- `for (let i = 60; i < m15.length; i++)`, which the first 60 candles only precede.
  pub run_backtest : Setting W → Backtest W
  run_backtest r =
      if ltb (length (r.history m15)) 50
      then failed
      else finish (walk r 60 (drop 60 (r.history m15)) (record { seen = []; signals = [] }))
