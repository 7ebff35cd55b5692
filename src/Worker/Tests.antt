-- ===== src/Worker/Tests.antt =====
-- The theorems on the worker at a signal that is let through, stored, entered and closed.
use mmxm.Prelude.{◌≡◌, refl, true, false, none, some, List, [], ◌∷◌, All, arith, length}
use mmxm.Double.Fixed.{Fixed, fixed_double}
use mmxm.Types.{long, market_maker_buy_model, bullish}
use mmxm.Samples.{price}
use mmxm.Gate.{Candidate}
use mmxm.Notify.{Channels, agree}
use mmxm.Track.{is_some}
use mmxm.Worker.{
  World, JobInput, Job, analysis, storing, insight, tracking, run_job, run_jobs, store_admitted,
}
use mmxm.Worker.Single.{IsGuarded, run_jobs-IsGuarded}
use mmxm.Worker.Chronicle.{IsChronicle, run_jobs-IsChronicle}
use mmxm.Worker.Announced.{IsAnnounced, run_jobs-IsAnnounced}

abbrev channels : Channels Fixed
channels = record { has_token = true; chat = some "main"; min_confidence = price 75 }

abbrev purchase : Candidate Fixed
purchase = record {
  direction = long;
  mmxm_model = market_maker_buy_model;
  entry_min = price 2000;
  entry_max = price 2004;
  preferred_entry = price 2002;
  stop_loss = price 1990;
  take_profits = record { level = some 1; price = price 2010 } ∷ [];
  risk_reward_ratio = price 2;
  confidence_score = price 80;
  higher_timeframe_bias = bullish;
  weights = [];
  expires_at = 1_000_000;
}

abbrev market : JobInput Fixed
market = record {
  started = 5_000;
  decided = 5_100;
  uuid = "u";
  engine_version = "v1";
  min_candles_m5 = 100;
  min_candles_m15 = 40;
  versions = [];
  bars = [];
  newest_tick = none;
  ask = λ candles live. none;
}

-- An empty table, and a purchase that the gate has let through.
abbrev begun : World Fixed
begun = record {
  rows = [];
  pending = some (record { candidate = purchase; llm_generated = false; version_id = "v" });
  last_verdict = none;
  published = [];
  sent = [];
}

abbrev day : List (Job Fixed)
day =
    analysis market
    ∷ storing "a" 1_000 ("friend" ∷ [])
    ∷ tracking (some (record { last = price 2003; bid = price 2003 })) 2_000
    ∷ insight "a" purchase (some agree)
    ∷ analysis market
    ∷ tracking (some (record { last = price 1989; bid = price 1989 })) 6_000
    ∷ []

begun-IsGuarded : IsGuarded begun
begun-IsGuarded = record { single = λ dir. omega arith; clear = λ a e. refl }

run_jobs-IsGuarded_example : IsGuarded (run_jobs channels day begun)
run_jobs-IsGuarded_example = run_jobs-IsGuarded channels day begun begun-IsGuarded

run_jobs-IsChronicle_example : All IsChronicle (run_jobs channels day begun).rows
run_jobs-IsChronicle_example = run_jobs-IsChronicle channels day begun tt

run_jobs-IsAnnounced_example : IsAnnounced (run_jobs channels day begun)
run_jobs-IsAnnounced_example =
    run_jobs-IsAnnounced channels day begun (record { stored = refl; moves = refl })

-- Storing empties the place of the pending signal and adds a row.
stored_once :
    (length (run_jobs channels (storing "a" 1_000 [] ∷ storing "b" 1_100 [] ∷ []) begun).rows ≡ 1)
    × (is_some (run_jobs channels (storing "a" 1_000 [] ∷ []) begun).pending ≡ false)
unfolding run_jobs run_job store_admitted
stored_once = (refl, refl)
