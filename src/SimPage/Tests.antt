-- ===== src/SimPage/Tests.antt =====
-- The theorems on the page of the simulation at samples.
use mmxm.Prelude.{ℕ, ◌*◌, ◌≡◌, refl, true, false, none, some, List, [], ◌∷◌, filter}
use mmxm.Double.{of_ℕ}
use mmxm.Double.Fixed.{Fixed, fixed_double, Fixed-IsOrdered}
use mmxm.Types.{SignalStatus, long, completed, failed, active, market_maker_buy_model, bullish}
use mmxm.Samples.{price}
use mmxm.Notify.{agree}
use mmxm.Worker.Rows.{TableRow}
use mmxm.SignalApi.{newest_first, is_asked}
use mmxm.Sim.{compute_sim}
use mmxm.SimPage.{Settings, simulate, in_range, drawdown_of}
use mmxm.SimPage.Fetch.{all_closed, all_statuses, one_status, fetch_signals, is_shown}
use mmxm.SimPage.Whole.{fetch_signals-whole}
use mmxm.SimPage.Agrees.{of_page, page-compute_sim}
use mmxm.SimPage.Falls.{IsDrawdown, drawdown_of-IsDrawdown}

abbrev settings : Settings Fixed
settings = record {
  account = record { deposit = price 1000; risk_pct = price 1; max_lot = price 1 };
  fixed_mode = false;
  fixed_lot = price 1;
  from_date = some 0;
  to_date = none;
}

abbrev row : ℕ → SignalStatus → TableRow Fixed
row minute status = record {
  row = record {
    id = "a";
    direction = long;
    status = status;
    entry_min = price 2000;
    entry_max = price 2004;
    preferred_entry = price 2002;
    stop_loss = price 1992;
    managed_stop = none;
    take_profits = record { level = some 1; price = price 2022 } ∷ [];
    expires_at = 1_000;
  };
  mmxm_model = market_maker_buy_model;
  risk_reward = price 2;
  confidence = price 80;
  htf_bias = bullish;
  weights = [];
  strategy_version_id = "v";
  ai_verified = true;
  ai_insight = some agree;
  detected_at = minute * 60_000;
  confirmed_at = none;
  events = [];
}

abbrev table : List (TableRow Fixed)
table = row 1 completed ∷ row 2 failed ∷ row 3 active ∷ []

fetch_signals-whole_example :
    (fetch_signals all_closed (some agree) 75 table
      ≡ filter (is_shown (some agree) (of_ℕ 75)) (newest_first table))
    × (fetch_signals all_statuses (some agree) 75 table ≡ newest_first table)
    × ((s : SignalStatus)
        → fetch_signals (one_status s) (some agree) 75 table
          ≡ newest_first (filter (is_asked (some s)) table))
fetch_signals-whole_example = fetch_signals-whole (some agree) 75 table

page-compute_sim_example :
    of_page (simulate settings (in_range settings (fetch_signals all_closed none 0 table)))
    ≡ compute_sim (in_range settings (fetch_signals all_closed none 0 table)) settings.account
page-compute_sim_example = page-compute_sim settings none 0 table refl

abbrev equities : List Fixed
equities = price 1020 ∷ price 990 ∷ price 1005 ∷ []

drawdown_of-IsDrawdown_example :
    IsDrawdown (price 1000) equities (drawdown_of (price 1000) equities)
drawdown_of-IsDrawdown_example =
    drawdown_of-IsDrawdown Fixed-IsOrdered (price 1000) equities refl refl
      (refl, (refl, (refl, tt))) (refl, (refl, (refl, tt)))
