-- ===== src/SignalsPage/Tests.antt =====
-- The theorems on the pages of the signals at samples.
use mmxm.Prelude.{ℕ, ◌≤◌, ◌≡◌, ◌≢◌, refl, none, some, [], ◌∷◌, leb, flat_map, count_from, true}
use mmxm.Double.Fixed.{Fixed, fixed_double}
use mmxm.Types.{
  long, preliminary, confirmed, active, tp1_hit, stopped, market_maker_buy_model, bullish,
}
use mmxm.Samples.{price}
use mmxm.Track.Legal.{to_active, first_target}
use mmxm.Notify.{agree}
use mmxm.Worker.Rows.{TableRow}
use mmxm.Worker.Chronicle.{IsChronicle, born, confirms, lives, ends, goes}
use mmxm.SignalApi.{list, asked_rows}
use mmxm.SignalsPage.{page_query, total_pages, tp_hit_count, is_hit}
use mmxm.SignalsPage.Covers.{pages-cover}
use mmxm.SignalsPage.Hits.{is_hit-tp_hit_count}

-- A signal that has reached its first target.
abbrev row : TableRow Fixed
row = record {
  row = record {
    id = "a";
    direction = long;
    status = tp1_hit;
    entry_min = price 2000;
    entry_max = price 2004;
    preferred_entry = price 2002;
    stop_loss = price 1992;
    managed_stop = some (price 2002);
    take_profits = record { level = some 1; price = price 2022 } ∷ [];
    expires_at = 1_000;
  };
  mmxm_model = market_maker_buy_model;
  risk_reward = price 2;
  confidence = price 80;
  htf_bias = bullish;
  weights = [];
  strategy_version_id = "v";
  ai_verified = true;
  ai_insight = some agree;
  detected_at = 100;
  confirmed_at = none;
  events =
      record { from_status = none; to_status = preliminary; level = none }
      ∷ record { from_status = some preliminary; to_status = confirmed; level = none }
      ∷ record { from_status = some confirmed; to_status = active; level = none }
      ∷ record { from_status = some active; to_status = tp1_hit; level = some 1 }
      ∷ [];
}

row-IsChronicle : IsChronicle row
row-IsChronicle = record {
  begins = (refl, refl);
  log =
      goes refl born (λ e. cc)
        (goes refl confirms (λ e. cc)
          (goes refl (lives (to_active refl)) (λ e. cc)
            (goes refl (lives first_target) (λ e. cc) ends)));
}

is_hit-tp_hit_count_example :
    (tp1_hit ≢ stopped
      → (k : ℕ) → 1 ≤ k
      → k ≤ 3
      → is_hit row.events k ≡ leb k (tp_hit_count tp1_hit))
    × (tp1_hit ≡ stopped → (is_hit row.events 1 ≡ true) × (tp_hit_count tp1_hit ≡ 0))
is_hit-tp_hit_count_example = is_hit-tp_hit_count row row-IsChronicle

pages-cover_example :
    flat_map
      (λ page. (list (page_query none (some agree) none page) (row ∷ row ∷ [])).items)
      (count_from 1
        (total_pages (some (list (page_query none (some agree) none 1) (row ∷ row ∷ [])).total)))
    ≡ asked_rows none (row ∷ row ∷ [])
pages-cover_example = pages-cover none (some agree) none (row ∷ row ∷ [])
