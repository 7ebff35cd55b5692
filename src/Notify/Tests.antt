-- ===== src/Notify/Tests.antt =====
-- The theorem on the messages of the tracker at a signal that reaches two targets.
use mmxm.Prelude.{refl, true, none, some, [], ◌∷◌, All}
use mmxm.Double.Fixed.{Fixed, fixed_double}
use mmxm.Types.{long, active}
use mmxm.Samples.{price}
use mmxm.Track.{SignalRow, track}
use mmxm.Notify.{Channels}
use mmxm.Notify.Delivered.{IsReported, track-IsReported}

abbrev channels : Channels Fixed
channels = record { has_token = true; chat = some "main"; min_confidence = price 75 }

abbrev row : SignalRow Fixed
row = record {
  id = "a";
  direction = long;
  status = active;
  entry_min = price 2000;
  entry_max = price 2004;
  preferred_entry = price 2002;
  stop_loss = price 1990;
  managed_stop = none;
  take_profits =
      record { level = none; price = price 2010 }
      ∷ record { level = none; price = price 2020 }
      ∷ [];
  expires_at = 1000;
}

track-IsReported_example :
    All (IsReported channels "main" row (price 2025)) (track (price 2025) 5 row)
track-IsReported_example = track-IsReported channels "main" (price 2025) 5 row refl refl refl refl
