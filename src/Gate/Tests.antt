-- ===== src/Gate/Tests.antt =====
-- The theorems on storing signals at samples.
use mmxm.Prelude.{◌≡◌, ◌↔◌, true, false, List, [], ◌∷◌, filter}
use mmxm.Double.Fixed.{Fixed, fixed_double}
use mmxm.Types.{long, short, active, failed, market_maker_buy_model, bullish}
use mmxm.Samples.{price}
use mmxm.Backtest.{same_direction}
use mmxm.Gate.{Candidate, Stored, created, admit, open_in, opposite, newest, is_throttled, is_hedge}
use mmxm.Gate.OneOpen.{admit_created}

abbrev signal : Candidate Fixed
signal = record {
  direction = long;
  mmxm_model = market_maker_buy_model;
  entry_min = price 2000;
  entry_max = price 2004;
  preferred_entry = price 2002;
  stop_loss = price 1990;
  take_profits = [];
  risk_reward_ratio = price 2;
  confidence_score = price 90;
  higher_timeframe_bias = bullish;
  weights = [];
  expires_at = 1000;
}

-- An open sale of a lower confidence, and a purchase that has failed.
abbrev rows : List (Stored Fixed)
rows =
    record {
      direction = short;
      status = active;
      preferred_entry = price 2020;
      stop_loss = price 2030;
      confidence = price 70;
      detected_at = 10;
    }
    ∷ record {
      direction = long;
      status = failed;
      preferred_entry = price 2002;
      stop_loss = price 1990;
      confidence = price 90;
      detected_at = 20;
    }
    ∷ []

admit_created_example : (admit 30 true signal rows ≡ created) ↔ (
    (filter (open_in long) rows ≡ [])
    × (is_throttled 30 (price 90) (newest (filter (λ s. same_direction long s.direction) rows))
        ≡ false)
    × (is_hedge (price 90) (newest (filter (open_in (opposite long)) rows)) ≡ false)
    × (true ≡ true))
admit_created_example = admit_created 30 true signal rows
