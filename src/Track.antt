-- ===== src/Track.antt =====
-- apps/worker/src/track.ts: the life of a signal, driven by the latest tick. What one pass does to a
-- row is a list of effects; `apply` is what each does to the row. Prices are numbers here (the rows
-- hold decimal texts that `Number` reads). The notification of the chat bot is left out.
pub mod Branches
pub mod Legal
pub mod Levels
pub mod Managed
pub mod Progress
mod Tests
use mmxm.Prelude.{
  ℕ, zero, suc, ◌+◌, Bool, true, false, not, ◌&&◌, ◌||◌, Option, none, some, List, [], ◌∷◌, ◌++◌,
  map, String, leb, ltb, if◌then◌else◌, filter, foldl, sort_by,
}
use mmxm.Double.{Double, of_ℕ}
use mmxm.Types.{
  Direction, long, short, SignalStatus, watching, preliminary, confirmed, active, invalidated,
  expired, tp1_hit, tp2_hit, completed, stopped, failed,
}

pub record TpLevel (W : Type 0) : Type 0 where
  pub level : Option ℕ
  pub price : W

pub record Target (W : Type 0) : Type 0 where
  pub level : ℕ
  pub price : W

pub record SignalRow (W : Type 0) : Type 0 where
  pub id : String
  pub direction : Direction
  pub status : SignalStatus
  pub entry_min : W
  pub entry_max : W
  pub preferred_entry : W
  pub stop_loss : W
  pub managed_stop : Option W
  pub take_profits : List (TpLevel W)
  pub expires_at : ℕ

pub record Tick (W : Type 0) : Type 0 where
  pub last : W
  pub bid : W

pub data EventName : Type 0 where
  signal_closed signal_active signal_tp : EventName

-- A call of `transition`, with the level of its payload, and the move of the stop to the entry.
pub data Effect (W : Type 0) : Type 0 where
  moved : SignalStatus → SignalStatus → EventName → Option ℕ → Effect W
  be_applied : W → Effect W

abbrev pub is_pre_entry : SignalStatus → Bool
is_pre_entry watching = true
is_pre_entry preliminary = true
is_pre_entry confirmed = true
is_pre_entry _ = false

abbrev pub is_active : SignalStatus → Bool
is_active active = true
is_active _ = false

-- TP1_HIT and TP2_HIT
abbrev pub is_partial : SignalStatus → Bool
is_partial tp1_hit = true
is_partial tp2_hit = true
is_partial _ = false

abbrev pub is_tracked : SignalStatus → Bool
is_tracked s = is_pre_entry s || is_active s || is_partial s

abbrev pub level_of : SignalStatus → ℕ
level_of active = 0
level_of tp1_hit = 1
level_of tp2_hit = 2
level_of _ = 3

-- `level >= 3 ? 'COMPLETED' : `TP${level}_HIT``, for a level of at least 1.
abbrev pub status_at : ℕ → SignalStatus
status_at (suc zero) = tp1_hit
status_at (suc (suc zero)) = tp2_hit
status_at _ = completed

abbrev pub is_some : {A : Type 0} → Option A → Bool
is_some none = false
is_some (some _) = true

abbrev or_else : {A : Type 0} → Option A → A → A
or_else none b = b
or_else (some a) b = a

abbrev max_level : ℕ → List ℕ → ℕ
max_level m [] = m
max_level m (l ∷ ls) = if leb m l then max_level l ls else max_level m ls

module _ {W : Type 0} where
  numbered_from : ℕ → List (TpLevel W) → List (Target W)
  numbered_from i [] = []
  numbered_from i (t ∷ ts) =
      record { level = or_else t.level (i + 1); price = t.price } ∷ numbered_from (suc i) ts

  -- The loop `while (level <= maxLevel)`. At most `max` turns are made from a level of 1 or more.
  pub climb : ℕ → SignalStatus → ℕ → ℕ → List (Effect W)
  climb zero cur level max = []
  climb (suc fuel) cur level max =
      if leb level max
      then moved cur (status_at level) signal_tp (some level)
        ∷ climb fuel (status_at level) (suc level) max
      else []

  pub apply : Effect W → SignalRow W → SignalRow W
  apply (moved from to event level) s = record s { status = to }
  apply (be_applied price) s = record s { managed_stop = some price }

  pub apply_all : List (Effect W) → SignalRow W → SignalRow W
  apply_all [] s = s
  apply_all (e ∷ es) s = apply_all es (apply e s)

  -- The progress through the targets, then the move of the stop to the entry.
  pub progress : SignalRow W → ℕ → List (Effect W)
  progress s max =
      climb max s.status (suc (level_of s.status)) max
      ++ (if is_active s.status && leb 1 max && not (is_some s.managed_stop)
          then be_applied s.preferred_entry ∷ []
          else [])

module _ {W : Type 0} ⦃d : Double W⦄ where
  open d use {lt, le, max, min, is_finite}

  pub tick_price : Tick W → W
  tick_price t = if lt (of_ℕ 0) t.last then t.last else t.bid

  targets : SignalRow W → List (Target W)
  targets s =
      sort_by (λ a b. leb a.level b.level)
        (filter (λ t. is_finite t.price) (numbered_from 0 s.take_profits))

  pub is_reached : Direction → W → Target W → Bool
  is_reached long price t = le t.price price
  is_reached short price t = le price t.price

  pub hit_level : SignalRow W → W → ℕ
  hit_level s price =
      max_level 0 (map (λ t. t.level) (filter (is_reached s.direction price) (targets s)))

  abbrev pub effective_stop : SignalRow W → W
  effective_stop s = or_else s.managed_stop s.stop_loss

  pub stop_hit : Direction → W → W → Bool
  stop_hit long price stop = le price stop
  stop_hit short price stop = le stop price

  pub in_entry_zone : SignalRow W → W → Bool
  in_entry_zone s price =
      le (min s.entry_min s.entry_max) price && le price (max s.entry_min s.entry_max)

  -- The body of the loop over the open signals.
  pub track : W → ℕ → SignalRow W → List (Effect W)
  track price now s =
      let pre = is_pre_entry s.status in
      let hit = stop_hit s.direction price (effective_stop s) in
      if pre && ltb s.expires_at now
      then moved s.status expired signal_closed none ∷ []
      else if pre && in_entry_zone s price
      then moved s.status active signal_active none ∷ []
      else if pre && hit
      then moved s.status invalidated signal_closed none ∷ []
      else if is_active s.status && hit
      then moved s.status failed signal_closed none ∷ []
      else if is_partial s.status && hit && is_some s.managed_stop
      then moved s.status stopped signal_closed (some (level_of s.status)) ∷ []
      else if is_active s.status || is_partial s.status
      then progress s (hit_level s price)
      else []

  pub track_row : W → ℕ → SignalRow W → SignalRow W
  track_row price now s = if is_tracked s.status then apply_all (track price now s) s else s

  -- One pass over the table: nothing without a tick.
  pub track_signal_outcomes : Option (Tick W) → ℕ → List (SignalRow W) → List (SignalRow W)
  track_signal_outcomes none now rows = rows
  track_signal_outcomes (some t) now rows = map (track_row (tick_price t) now) rows
