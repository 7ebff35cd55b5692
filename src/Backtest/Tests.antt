-- ===== src/Backtest/Tests.antt =====
-- The theorems on the backtest at samples.
use mmxm.Prelude.{◌≡◌, inr, List, true, arith}
use mmxm.Double.Fixed.{Fixed, fixed_double}
use mmxm.Types.{default_strategy_config}
use mmxm.Samples.{flat}
use mmxm.Backtest.{Setting, Trade, completed, summary_of, run_backtest}
use mmxm.Backtest.Outcomes.{IsUnresolved, run_backtest-IsUnresolved, run_backtest-completes}

abbrev setting : Setting Fixed
setting = record {
  config = default_strategy_config;
  version = "v1";
  history = λ tf. flat 61;
  now = λ i. i;
  uuid = λ i. "id";
  to_fixed = λ p. "2000.0";
  same_text = λ a b. true;
}

run_backtest-IsUnresolved_example : IsUnresolved (run_backtest setting)
run_backtest-IsUnresolved_example = run_backtest-IsUnresolved setting

run_backtest-completes_example :
    (trades : List (Trade Fixed)) × (run_backtest setting ≡ completed (summary_of trades) trades)
run_backtest-completes_example = run_backtest-completes setting (inr (omega arith)) (omega arith)
