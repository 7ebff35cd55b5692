-- ===== src/Track/Levels.antt =====
-- apps/worker/src/track.ts: the level that a transition to COMPLETED carries.
use mmxm.Prelude.{
  ℕ, zero, suc, ◌≤◌, ◌≡◌, refl, Bool, true, false, Option, some, List, [], ◌∷◌, arith, leb,
  if◌then◌else◌, All, Bool-cases, inl, inr,
}
use mmxm.Prelude.Loops.{All-append}
use mmxm.Double.{Double}
use mmxm.Types.{SignalStatus, completed}
use mmxm.Track.{SignalRow, Effect, moved, be_applied, level_of, status_at, climb, progress, track}
use mmxm.Track.Branches.{Branch, expires, enters, dies, fails, stops, advances, waits, track-Branch}

-- A transition to COMPLETED carries a level of 3 or more.
abbrev pub IsLeveled : SignalStatus → Option ℕ → Type 0
IsLeveled to level = to ≡ completed → (n : ℕ) × (level ≡ some n) × (3 ≤ n)

abbrev pub IsLeveledEffect : {W : Type 0} → Effect W → Type 0
IsLeveledEffect (moved from to event level) = IsLeveled to level
IsLeveledEffect (be_applied price) = Unit

status_at-IsLeveled : (level : ℕ) → 1 ≤ level → IsLeveled (status_at level) (some level)
status_at-IsLeveled zero h = absurd (omega arith)
status_at-IsLeveled (suc zero) h = λ e. cc
status_at-IsLeveled (suc (suc zero)) h = λ e. cc
status_at-IsLeveled (suc (suc (suc n))) h = λ e. (suc (suc (suc n)), refl, omega arith)

climb-IsLeveled :
    (W : Type 0) (fuel : ℕ) (cur : SignalStatus) (level max : ℕ)
    → 1 ≤ level
    → All IsLeveledEffect (climb {W = W} fuel cur level max)
unfolding climb
climb-IsLeveled W zero cur level max h = tt
climb-IsLeveled W (suc fuel) cur level max h = elim (Bool-cases (leb level max)) [
  | inr e ↦ rw e tt
  | inl e ↦ rw e (
    status_at-IsLeveled level h,
    climb-IsLeveled W fuel (status_at level) (suc level) max (omega arith),
  )
]

module _ {W : Type 0} where
  kept_IsLeveled :
      (b : Bool) (price : W) → All IsLeveledEffect (if b then be_applied price ∷ [] else [])
  kept_IsLeveled true price = (tt, tt)
  kept_IsLeveled false price = tt

  progress-IsLeveled : (s : SignalRow W) (max : ℕ) → All IsLeveledEffect (progress s max)
  unfolding progress
  progress-IsLeveled s max =
      All-append IsLeveledEffect _ _
        (climb-IsLeveled W max s.status (suc (level_of s.status)) max (omega arith))
        (kept_IsLeveled _ s.preferred_entry)

module _ {W : Type 0} ⦃d : Double W⦄ where
  Branch-IsLeveled :
      (price : W) (now : ℕ) (s : SignalRow W) {es : List (Effect W)}
      → Branch price now s es
      → All IsLeveledEffect es
  Branch-IsLeveled price now s (expires pre late) = (λ e. cc, tt)
  Branch-IsLeveled price now s (enters pre inside) = (λ e. cc, tt)
  Branch-IsLeveled price now s (dies pre hit) = (λ e. cc, tt)
  Branch-IsLeveled price now s (fails opens hit) = (λ e. cc, tt)
  Branch-IsLeveled price now s (stops partial hit managed) = (λ e. cc, tt)
  Branch-IsLeveled price now s (advances opens a b) = progress-IsLeveled s _
  Branch-IsLeveled price now s (waits idle) = tt

  pub track-IsLeveled :
      (price : W) (now : ℕ) (s : SignalRow W) → All IsLeveledEffect (track price now s)
  track-IsLeveled price now s = Branch-IsLeveled price now s (track-Branch price now s)
