-- ===== src/Backtest/Outcomes.antt =====
-- apps/worker/src/backtest-runner.ts: what the trades and the summary of a run say of outcomes.
use mmxm.Prelude.{
  ℕ, suc, ◌≤◌, ◌≡◌, refl, ◌⊎◌, Bool, true, false, Option, none, some, List, [], ◌∷◌, leb, ltb, All,
  if◌then◌else◌, length, filter, any, drop, ◌≢◌, Bool-cases, inl, inr, arith,
}
use mmxm.Prelude.Loops.{All-append}
use mmxm.Double.{Double}
use mmxm.Types.{m5, m15, Candle, XauusdSignal, TakeProfit}
use mmxm.Engine.Outcome.{Run, go, stop, thrown}
use mmxm.Engine.Total.{analyze-total}
use mmxm.Backtest.{
  Trade, Setting, Walk, Backtest, completed, failed, is_resolved, slice, scan, future, resolve,
  trade_of, summary_of, same_key, key_of, analysis_at, record_signal, walk, run_backtest, finish,
  then_walk,
}

module _ {W : Type 0} where
  future_empty : (cut : ℕ) (cs : List (Candle W)) → future cut cs ≡ []
  unfolding future slice
  future_empty cut [] = refl
  future_empty cut (c ∷ cs) = elim (Bool-cases (leb c.open_time cut)) [
    | inr e ↦ rw e (future_empty cut cs)
    | inl e ↦
        let late : ltb cut c.open_time ≡ false = ground arith in rw (e, late) (future_empty cut cs)
  ]

abbrev Unresolved : {W : Type 0} → Trade W → Type 0
Unresolved t = t.outcome ≡ none

abbrev pub IsUnresolved : {W : Type 0} → Backtest W → Type 0
IsUnresolved failed = Unit
IsUnresolved (completed sum trades) =
    All (λ t. t.outcome ≡ none) trades × (sum.resolved ≡ 0) × (sum.win_rate ≡ none)

if-some : {A : Type 0} (b : Bool) (x y : A) → (z : A) × ((if b then some x else some y) ≡ some z)
if-some true x y = (x, refl)
if-some false x y = (y, refl)

-- A property of the trades of a walk that has not thrown.
abbrev After : {W : Type 0} → (Trade W → Type 0) → Option (Walk W) → Type 0
After P none = Unit
After P (some w) = All P w.signals

After-then_walk :
    {W : Type 0} (P : Trade W → Type 0) (f : Walk W → Option (Walk W)) (o : Option (Walk W))
    → After P o
    → ((w : Walk W) → All P w.signals → After P (f w))
    → After P (then_walk f o)
After-then_walk P f none h k = tt
After-then_walk P f (some w) h k = k w h

module _ {W : Type 0} ⦃d : Double W⦄ where
  resolve_nothing : (s : XauusdSignal W) (o : Option (TakeProfit W)) → resolve s o [] ≡ none
  unfolding resolve scan
  resolve_nothing s none = refl
  resolve_nothing s (some t) = refl

  trade-Unresolved :
      (s : XauusdSignal W) (cut : ℕ) (cs : List (Candle W)) → Unresolved (trade_of s cut cs)
  unfolding trade_of
  trade-Unresolved s cut cs = rw (future_empty cut cs) (resolve_nothing s _)

  record-Unresolved :
      (r : Setting W) (cut : ℕ) (out : Run (XauusdSignal W)) (w : Walk W)
      → All Unresolved w.signals
      → After Unresolved (record_signal r cut out w)
  unfolding record_signal
  record-Unresolved r cut thrown w h = tt
  record-Unresolved r cut (stop x) w h = h
  record-Unresolved r cut (go s) w h = elim (Bool-cases (any (same_key r (key_of r s)) w.seen)) [
    | inl k ↦ rw k h
    | inr k ↦ rw k (All-append Unresolved w.signals _ h (trade-Unresolved s cut (r.history m5), tt))
  ]

  analysis_at-total :
      (r : Setting W)
      → (r.config.max_setup_age_candles_m15 ≡ 0) ⊎ (3 ≤ r.config.max_setup_age_candles_m15)
      → (i : ℕ) (c : Candle W) → analysis_at r i c ≢ thrown
  unfolding analysis_at
  analysis_at-total r wide i c = analyze-total _ _ _ _ wide

  record-total :
      (r : Setting W) (cut : ℕ) (out : Run (XauusdSignal W)) (w : Walk W)
      → out ≢ thrown
      → (next : Walk W) × (record_signal r cut out w ≡ some next)
  unfolding record_signal
  record-total r cut thrown w h = absurd (h refl)
  record-total r cut (stop x) w h = (w, refl)
  record-total r cut (go s) w h = if-some _ w _

  walk-total :
      (r : Setting W)
      → (r.config.max_setup_age_candles_m15 ≡ 0) ⊎ (3 ≤ r.config.max_setup_age_candles_m15)
      → (i : ℕ) (cs : List (Candle W)) (w : Walk W) → (last : Walk W) × (walk r i cs w ≡ some last)
  unfolding walk
  walk-total r wide i [] w = (w, refl)
  walk-total r wide i (c ∷ cs) w =
      let (next, e) =
        record-total r c.open_time (analysis_at r i c) w (analysis_at-total r wide i c) in
      let (end, k) = walk-total r wide (suc i) cs next in (end, rw (e, k) refl)

  walk-Unresolved :
      (r : Setting W) (i : ℕ) (cs : List (Candle W)) (w : Walk W)
      → All Unresolved w.signals
      → After Unresolved (walk r i cs w)
  unfolding walk
  walk-Unresolved r i [] w h = h
  walk-Unresolved r i (c ∷ cs) w h =
      After-then_walk Unresolved (λ next. walk r (suc i) cs next) _
        (record-Unresolved r c.open_time (analysis_at r i c) w h)
        λ next k. walk-Unresolved r (suc i) cs next k

  none_resolved : (trades : List (Trade W)) → All Unresolved trades → filter is_resolved trades ≡ []
  none_resolved [] h = refl
  none_resolved (t ∷ ts) (h, hs) = rw h (none_resolved ts hs)

  summary-Unresolved :
      (trades : List (Trade W))
      → All Unresolved trades
      → ((summary_of trades).resolved ≡ 0) × ((summary_of trades).win_rate ≡ none)
  unfolding summary_of
  summary-Unresolved trades h = rw (none_resolved trades h) (refl, refl)

  finish-IsUnresolved : (o : Option (Walk W)) → After Unresolved o → IsUnresolved (finish o)
  unfolding finish
  finish-IsUnresolved none h = tt
  finish-IsUnresolved (some w) h =
      let (none_left, no_rate) = summary-Unresolved w.signals h in (h, none_left, no_rate)

  -- A run that completes has resolved no trade: every trade is without an outcome, and the summary
  -- counts none as resolved and has no rate of wins.
  pub run_backtest-IsUnresolved : (r : Setting W) → IsUnresolved (run_backtest r)
  unfolding run_backtest
  run_backtest-IsUnresolved r = elim (Bool-cases (ltb (length (r.history m15)) 50)) [
    | inl e ↦ rw e tt
    | inr e ↦ rw e (finish-IsUnresolved _ (walk-Unresolved r 60 (drop 60 (r.history m15)) _ tt))
  ]

  -- A run whose setup window is 0 or at least 3 candles completes once M15 has 50 candles.
  pub run_backtest-completes :
      (r : Setting W)
      → (r.config.max_setup_age_candles_m15 ≡ 0) ⊎ (3 ≤ r.config.max_setup_age_candles_m15)
      → 50 ≤ length (r.history m15)
      → (trades : List (Trade W)) × (run_backtest r ≡ completed (summary_of trades) trades)
  unfolding run_backtest finish
  run_backtest-completes r wide long =
      let short : ltb (length (r.history m15)) 50 ≡ false = ground arith in
      let (w, e) =
        walk-total r wide 60 (drop 60 (r.history m15)) (record { seen = []; signals = [] }) in
      (w.signals, rw (short, e) refl)
