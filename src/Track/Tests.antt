-- ===== src/Track/Tests.antt =====
-- The theorems on the tracker at samples.
use mmxm.Prelude.{ℕ, ◌≡◌, refl, true, false, ◌||◌, none, some, List, [], ◌∷◌, if◌then◌else◌, leb}
use mmxm.Double.Fixed.{Fixed, fixed_double}
use mmxm.Types.{long, confirmed, active, tp1_hit, SignalStatus}
use mmxm.Samples.{price}
use mmxm.Track.{
  SignalRow, TpLevel, is_tracked, is_partial, is_active, track, track_row, targets, numbered_from,
  is_reached, hit_level, stop_hit, in_entry_zone, climb, apply, apply_all, progress, status_at,
}
use mmxm.Track.Branches.{hits_stop}
use mmxm.Track.Legal.{Runs, rank, track_row-Runs}
use mmxm.Track.Managed.{track_ticks, stop_closes}
use mmxm.Track.Progress.{track_row-progress}

abbrev target : ℕ → TpLevel Fixed
target p = record { level = none; price = price p }

abbrev row : SignalStatus → SignalRow Fixed
row status = record {
  id = "a";
  direction = long;
  status = status;
  entry_min = price 2000;
  entry_max = price 2004;
  preferred_entry = price 2002;
  stop_loss = price 1990;
  managed_stop = none;
  take_profits = target 2010 ∷ target 2020 ∷ target 2030 ∷ [];
  expires_at = 1000;
}

track_row-Runs_example :
    (is_tracked active ≡ true
      → Runs active
          (track (price 2025) 5 (row active))
          (track_row (price 2025) 5 (row active)).status)
    × (is_tracked active ≡ false → track_row (price 2025) 5 (row active) ≡ row active)
track_row-Runs_example = track_row-Runs (price 2025) 5 (row active)

clear : hits_stop (row active) (price 2025) ≡ false
unfolding stop_hit
clear = refl

two_reached : hit_level (row active) (price 2025) ≡ 2
unfolding hit_level targets numbered_from is_reached
two_reached = refl

track_row-progress_example : (track_row (price 2025) 5 (row active)).status ≡ (
    if leb 1 (hit_level (row active) (price 2025))
    then status_at (hit_level (row active) (price 2025))
    else active)
track_row-progress_example = track_row-progress (price 2025) 5 (row active) refl clear

-- The signal is entered, reaches its first target, and comes back to its entry.
abbrev ticks : List (Fixed × ℕ)
ticks = (price 2003, 5) ∷ (price 2011, 6) ∷ []

half_way :
    track_ticks ticks (row confirmed) ≡ record (row tp1_hit) { managed_stop = some (price 2002) }
unfolding track_row track in_entry_zone stop_hit progress climb apply apply_all hit_level targets
    numbered_from is_reached
half_way = refl

still_open :
    is_active (track_ticks ticks (row confirmed)).status
      || is_partial (track_ticks ticks (row confirmed)).status
    ≡ true
still_open = rw half_way refl

back : hits_stop (track_ticks ticks (row confirmed)) (price 2001) ≡ true
unfolding stop_hit
back = rw half_way refl

stop_closes_example : rank (track_row (price 2001) 7 (track_ticks ticks (row confirmed))).status ≡ 4
stop_closes_example = stop_closes ticks (row confirmed) (price 2001) 7 refl still_open back
