-- ===== src/Gate.antt =====
-- apps/worker/src/analyzer.ts, `runAnalysis` from the deduplication on: whether a signal that was
-- found is stored. The table is the list of the stored signals; the queries read it.
pub mod OneOpen
mod Tests
use mmxm.Prelude.{
  ℕ, ◌+◌, ◌-◌, ◌*◌, Bool, true, false, not, ◌&&◌, ◌||◌, Option, none, some, List, [], ◌∷◌, ◌++◌,
  leb, ltb, if◌then◌else◌, filter, find,
}
use mmxm.Double.{Double, of_ℕ}
use mmxm.Types.{
  Direction, long, short, SignalStatus, watching, preliminary, confirmed, active, invalidated,
  expired, tp1_hit, tp2_hit, completed, stopped, failed, MmxmModel, Bias,
}
use mmxm.Track.{TpLevel}
use mmxm.Backtest.{same_direction}

-- What is read of a signal that was found, by the engine or by a language model.
pub record Candidate (W : Type 0) : Type 0 where
  pub direction : Direction
  pub mmxm_model : MmxmModel
  pub entry_min : W
  pub entry_max : W
  pub preferred_entry : W
  pub stop_loss : W
  pub take_profits : List (TpLevel W)
  pub risk_reward_ratio : W
  pub confidence_score : W
  pub higher_timeframe_bias : Bias
  pub weights : List W
  pub expires_at : ℕ

-- The columns of a stored signal that the queries read.
pub record Stored (W : Type 0) : Type 0 where
  pub direction : Direction
  pub status : SignalStatus
  pub preferred_entry : W
  pub stop_loss : W
  pub confidence : W
  pub detected_at : ℕ

pub data Verdict : Type 0 where
  duplicate throttled same_direction_open opposite_open no_version created : Verdict

-- `status: { in: ['WATCHING', 'PRELIMINARY', 'CONFIRMED', 'ACTIVE'] }`
abbrev pub is_open : SignalStatus → Bool
is_open watching = true
is_open preliminary = true
is_open confirmed = true
is_open active = true
is_open _ = false

-- The statuses that end the cooldown.
abbrev pub is_closed : SignalStatus → Bool
is_closed stopped = true
is_closed completed = true
is_closed invalidated = true
is_closed expired = true
is_closed _ = false

abbrev pub opposite : Direction → Direction
opposite long = short
opposite short = long

module _ {W : Type 0} where
  abbrev pub open_in : Direction → Stored W → Bool
  open_in dir s = same_direction dir s.direction && is_open s.status

  -- `orderBy: { detectedAt: 'desc' }` and the first row.
  abbrev newest_of : Stored W → List (Stored W) → Stored W
  newest_of a [] = a
  newest_of a (b ∷ rows) =
      if ltb a.detected_at b.detected_at then newest_of b rows else newest_of a rows

  pub newest : List (Stored W) → Option (Stored W)
  newest [] = none
  newest (a ∷ rows) = some (newest_of a rows)

  abbrev pub exists_one : Option (Stored W) → Bool
  exists_one none = false
  exists_one (some _) = true

module _ {W : Type 0} ⦃d : Double W⦄ where
  open d use {add, sub, le, lit}

  -- The cooldown of 30 minutes after the newest signal of the direction.
  pub is_throttled : ℕ → W → Option (Stored W) → Bool
  is_throttled now confidence none = false
  is_throttled now confidence (some last) =
      not (is_closed last.status)
      && ltb (now - last.detected_at) (30 * 60 * 1000)
      && not (le (of_ℕ 90) confidence)

  -- An open signal of the other direction yields only to a higher confidence.
  pub is_hedge : W → Option (Stored W) → Bool
  is_hedge confidence none = false
  is_hedge confidence (some o) = le confidence o.confidence

  near : W → W → Bool
  near x y = le (sub x (lit 5 1)) y && le y (add x (lit 5 1))

  pub is_duplicate : Candidate W → Stored W → Bool
  is_duplicate sig s =
      open_in sig.direction s
      && near sig.preferred_entry s.preferred_entry
      && near sig.stop_loss s.stop_loss

  pub admit : ℕ → Bool → Candidate W → List (Stored W) → Verdict
  admit now has_version sig rows =
      let same = filter (λ s. same_direction sig.direction s.direction) rows in
      if exists_one (find (is_duplicate sig) rows)
      then duplicate
      else if is_throttled now sig.confidence_score (newest same)
      then throttled
      else if exists_one (newest (filter (open_in sig.direction) rows))
      then same_direction_open
      else if is_hedge sig.confidence_score
          (newest (filter (open_in (opposite sig.direction)) rows))
      then opposite_open
      else if has_version
      then created
      else no_version

  unfoldable pub stored_of : ℕ → Candidate W → Stored W
  stored_of now sig = record {
    direction = sig.direction;
    status = confirmed;
    preferred_entry = sig.preferred_entry;
    stop_loss = sig.stop_loss;
    confidence = sig.confidence_score;
    detected_at = now;
  }

  pub store : Verdict → ℕ → Candidate W → List (Stored W) → List (Stored W)
  store created now sig rows = rows ++ stored_of now sig ∷ []
  store _ now sig rows = rows

  pub persist : ℕ → Bool → Candidate W → List (Stored W) → List (Stored W)
  persist now has_version sig rows = store (admit now has_version sig rows) now sig rows
