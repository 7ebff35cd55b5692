-- ===== src/Track/Progress.antt =====
-- apps/worker/src/track.ts: where the progress through the targets ends.
use mmxm.Prelude.{
  ℕ, zero, suc, ◌+◌, ◌<◌, ◌≤◌, ◌≡◌, refl, ◌||◌, Bool, true, false, List, [], ◌∷◌, leb,
  if◌then◌else◌, Bool-cases, inl, inr, arith, leb→le,
}
use mmxm.Double.{Double}
use mmxm.Types.{SignalStatus}
use mmxm.Track.{
  SignalRow, Effect, be_applied, is_active, is_partial, level_of, status_at, climb, apply,
  apply_all, progress, track_row, hit_level,
}
use mmxm.Track.Branches.{
  hits_stop, Branch, expires, enters, dies, fails, stops, advances, waits, track-Branch,
}
use mmxm.Track.Managed.{open_not_pre, opens_tracked, apply_all-append}

leb-false : (a b : ℕ) → b < a → leb a b ≡ false
leb-false a b h = ground arith

reached :
    (level max : ℕ)
    → level ≤ max
    → (if leb (suc level) max then status_at max else status_at level) ≡ status_at max
reached level max h = elim (Bool-cases (leb (suc level) max)) [
  | inl e ↦ rw e refl
  | inr e ↦ let same : level ≡ max = ground arith in rw (e, same) refl
]

module _ {W : Type 0} where
  -- With fuel for every level up to `max`, the loop ends at the status of `max`.
  climb-status :
      (fuel : ℕ) (cur : SignalStatus) (level max : ℕ) (s : SignalRow W)
      → max < level + fuel
      → s.status ≡ cur
      → (apply_all (climb fuel cur level max) s).status
        ≡ (if leb level max then status_at max else cur)
  unfolding climb apply_all apply
  climb-status zero cur level max s enough h = rw (leb-false level max (omega arith)) h
  climb-status (suc fuel) cur level max s enough h = elim (Bool-cases (leb level max)) [
    | inr e ↦ rw e h
    | inl e ↦
        rw
          (
            e,
            climb-status fuel (status_at level) (suc level) max
                (record s { status = status_at level }) (omega arith) refl,
          )
          (reached level max (leb→le level max e))
  ]

  be_if-status :
      (b : Bool) (price : W) (s : SignalRow W)
      → (apply_all (if b then be_applied price ∷ [] else []) s).status ≡ s.status
  unfolding apply_all apply
  be_if-status true price s = refl
  be_if-status false price s = refl

  progress-status :
      (s : SignalRow W) (max : ℕ)
      → (apply_all (progress s max) s).status
        ≡ (if leb (suc (level_of s.status)) max then status_at max else s.status)
  unfolding progress
  progress-status s max =
      let climbed = climb max s.status (suc (level_of s.status)) max in
      rw (apply_all-append climbed _ s, be_if-status _ s.preferred_entry (apply_all climbed s))
        (climb-status max s.status (suc (level_of s.status)) max s (omega arith) refl)

module _ {W : Type 0} ⦃d : Double W⦄ where
  Branch-progress :
      (price : W) (now : ℕ) (s : SignalRow W) {es : List (Effect W)}
      → is_active s.status || is_partial s.status ≡ true
      → hits_stop s price ≡ false
      → Branch price now s es
      → (apply_all es s).status ≡ (
          if leb (suc (level_of s.status)) (hit_level s price)
          then status_at (hit_level s price)
          else s.status)
  Branch-progress price now s opens clear (expires pre _) = absurd (open_not_pre s.status opens pre)
  Branch-progress price now s opens clear (enters pre _) = absurd (open_not_pre s.status opens pre)
  Branch-progress price now s opens clear (dies pre _) = absurd (open_not_pre s.status opens pre)
  Branch-progress price now s opens clear (fails _ hit) = cc
  Branch-progress price now s opens clear (stops _ hit _) = cc
  Branch-progress price now s opens clear (advances _ a b) = progress-status s _
  Branch-progress price now s opens clear (waits idle) = cc

  -- An open signal whose stop is not hit stands after a pass at the highest target that the price
  -- has reached, however many it skipped, and stays as it was where that is not above its own.
  pub track_row-progress :
      (price : W) (now : ℕ) (s : SignalRow W)
      → is_active s.status || is_partial s.status ≡ true
      → hits_stop s price ≡ false
      → (track_row price now s).status ≡ (
          if leb (suc (level_of s.status)) (hit_level s price)
          then status_at (hit_level s price)
          else s.status)
  unfolding track_row
  track_row-progress price now s opens clear =
      rw (opens_tracked s.status opens)
        (Branch-progress price now s opens clear (track-Branch price now s))
