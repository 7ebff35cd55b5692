-- ===== src/BacktestJobs/Tests.antt =====
-- The theorem on the jobs of backtests at two requests, of which the second has no name.
use mmxm.Prelude.{ℕ, ◌≡◌, refl, true, none, List, [], ◌∷◌, map, String, All}
use mmxm.Double.Fixed.{Fixed, fixed_double}
use mmxm.Worker.Versions.{StrategyVersion}
use mmxm.BacktestJobs.{Backtests, CreateBody, Replay, create, work}
use mmxm.BacktestJobs.Settles.{HasEnded, create_all, work-HasEnded}

abbrev version : StrategyVersion Fixed
version = record {
  id = "v";
  config = record {
    setup_timeframe = none;
    confirmation_timeframe = none;
    precision_timeframe = none;
    atr_period = none;
    pivot_left_bars = none;
    pivot_right_bars = none;
    minimum_displacement_body_atr = none;
    minimum_displacement_range_atr = none;
    minimum_fvg_atr = none;
    equal_high_low_tolerance_atr = none;
    sweep_penetration_atr = none;
    structure_break_buffer_atr = none;
    stop_loss_buffer_atr = none;
    minimum_confidence = none;
    minimum_risk_reward = none;
    maximum_spread_points = none;
    maximum_signal_age_minutes = none;
    max_setup_age_candles_m15 = none;
    max_confirmation_age_candles_m5 = none;
  };
  is_active = true;
  created_at = 0;
}

abbrev replays : Replay Fixed
replays = record {
  versions = version ∷ [];
  bars = [];
  engine_version = "v1";
  now = λ i. i;
  uuid = λ i. "id";
  to_fixed = λ p. "2000.0";
  same_price = λ a b. true;
}

abbrev nothing : Backtests Fixed
nothing = record { rows = []; queue = [] }

abbrev body : ℕ → CreateBody
body n = record { name_length = n; range_start = 0; range_end = 86_400_000 }

abbrev requests : List (String × CreateBody)
requests = ("a", body 4) ∷ ("b", body 0) ∷ []

work-HasEnded_example :
    All HasEnded (work replays (create_all replays requests nothing)).rows
    × (map (λ r. r.id) (work replays (create_all replays requests nothing)).rows
        ≡ map (λ r. r.id) (create_all replays requests nothing).rows)
work-HasEnded_example = work-HasEnded replays requests nothing tt

one_queued : (create_all replays requests nothing).queue ≡ "a" ∷ []
unfolding create
one_queued = refl
