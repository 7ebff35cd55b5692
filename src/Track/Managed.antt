-- ===== src/Track/Managed.antt =====
-- apps/worker/src/track.ts: the managed stop, and the sequences of ticks.
use mmxm.Prelude.{
  ℕ, zero, suc, ◌≡◌, refl, ◌⊎◌, Bool, true, false, ◌&&◌, ◌||◌, List, [], ◌∷◌, ◌++◌, leb,
  if◌then◌else◌, Bool-cases, inl, inr, arith, le→leb,
}
use mmxm.Double.{Double}
use mmxm.Types.{SignalStatus, active, tp1_hit, tp2_hit}
use mmxm.Track.{
  SignalRow, Effect, be_applied, is_pre_entry, is_active, is_partial, is_tracked, is_some, level_of,
  status_at, climb, apply, apply_all, progress, track_row,
}
use mmxm.Track.Legal.{rank}
use mmxm.Track.Branches.{
  hits_stop, Branch, expires, enters, dies, fails, stops, advances, waits, track-Branch,
}

-- A row that has hit a target has a managed stop.
abbrev pub IsManaged : {W : Type 0} → SignalRow W → Type 0
IsManaged s = is_partial s.status ≡ true → is_some s.managed_stop ≡ true

-- The ticks of a signal's life, with the time of each.
abbrev pub track_ticks : {W : Type 0} ⦃d : Double W⦄ → List (W × ℕ) → SignalRow W → SignalRow W
track_ticks [] s = s
track_ticks ((price, now) ∷ ticks) s = track_ticks ticks (track_row price now s)

active_of :
    (s : SignalStatus)
    → is_active s || is_partial s ≡ true
    → ¬ (is_partial s ≡ true)
    → is_active s ≡ true
active_of active k h = refl
active_of tp1_hit k h = absurd (h refl)
active_of tp2_hit k h = absurd (h refl)
active_of s k h = cc

pub open_not_pre :
    (s : SignalStatus) → is_active s || is_partial s ≡ true → ¬ (is_pre_entry s ≡ true)
open_not_pre s e p = ground arith

pub opens_tracked : (s : SignalStatus) → is_active s || is_partial s ≡ true → is_tracked s ≡ true
opens_tracked s e = ground arith

no_advance :
    (s : SignalStatus) (hit managed : Bool)
    → is_active s || is_partial s ≡ true
    → hit ≡ true
    → (is_partial s ≡ true → managed ≡ true)
    → is_active s && hit ≡ false
    → ¬ (is_partial s && hit && managed ≡ false)
no_advance s hit managed opens e h a b = ground arith

and_intro : (a b : Bool) → a ≡ true → b ≡ true → a && b ≡ true
and_intro a b e f = rw (e, f) refl

module _ {W : Type 0} where
  pub apply_all-append :
      (es fs : List (Effect W)) (s : SignalRow W)
      → apply_all (es ++ fs) s ≡ apply_all fs (apply_all es s)
  unfolding apply_all
  apply_all-append [] fs s = refl
  apply_all-append (e ∷ es) fs s = apply_all-append es fs (apply e s)

  climb-managed :
      (fuel : ℕ) (cur : SignalStatus) (level max : ℕ) (s : SignalRow W)
      → (apply_all (climb fuel cur level max) s).managed_stop ≡ s.managed_stop
  unfolding climb apply_all apply
  climb-managed zero cur level max s = refl
  climb-managed (suc fuel) cur level max s = elim (Bool-cases (leb level max)) [
    | inr e ↦ rw e refl
    | inl e ↦ rw e (climb-managed fuel (status_at level) (suc level) max _)
  ]

  be_if-managed :
      (b : Bool) (price : W) (s : SignalRow W)
      → b ≡ true ⊎ is_some s.managed_stop ≡ true
      → is_some (apply_all (if b then be_applied price ∷ [] else []) s).managed_stop ≡ true
  unfolding apply_all apply
  be_if-managed true price s h = refl
  be_if-managed false price s (inr h) = h
  be_if-managed false price s (inl h) = cc

  progress-managed :
      (s : SignalRow W) (max : ℕ)
      → is_some s.managed_stop ≡ true ⊎ (is_active s.status && leb 1 max ≡ true)
      → is_some (apply_all (progress s max) s).managed_stop ≡ true
  unfolding progress
  progress-managed s max h =
      let climbed = climb max s.status (suc (level_of s.status)) max in
      rw (apply_all-append climbed _ s) (
        be_if-managed _ s.preferred_entry (apply_all climbed s)
          (rw (climb-managed max s.status (suc (level_of s.status)) max s) (ground arith)))

  progress_zero : (s : SignalRow W) → apply_all (progress s 0) s ≡ s
  unfolding progress climb apply_all
  progress_zero s = elim (Bool-cases (is_active s.status)) [ inl e ↦ rw e refl | inr e ↦ rw e refl ]

  progress-IsManaged :
      (s : SignalRow W) (max : ℕ)
      → IsManaged s
      → is_active s.status || is_partial s.status ≡ true
      → IsManaged (apply_all (progress s max) s)
  progress-IsManaged s zero h k = rw (progress_zero s) h
  progress-IsManaged s (suc max) h k = λ _.
      progress-managed s (suc max) (elim (Bool-cases (is_some s.managed_stop)) [
        | inl e ↦ inl e
        | inr e ↦
            inr (
              and_intro _ _ (active_of s.status k λ p. cc (h p)) (le→leb 1 (suc max) (omega arith)))
      ])

module _ {W : Type 0} ⦃d : Double W⦄ where
  Branch-IsManaged :
      (price : W) (now : ℕ) (s : SignalRow W) {es : List (Effect W)}
      → IsManaged s
      → Branch price now s es
      → IsManaged (apply_all es s)
  unfolding apply_all apply
  Branch-IsManaged price now s h (expires _ _) = λ p. cc
  Branch-IsManaged price now s h (enters _ _) = λ p. cc
  Branch-IsManaged price now s h (dies _ _) = λ p. cc
  Branch-IsManaged price now s h (fails _ _) = λ p. cc
  Branch-IsManaged price now s h (stops _ _ _) = λ p. cc
  Branch-IsManaged price now s h (advances opens a b) = progress-IsManaged s _ h opens
  Branch-IsManaged price now s h (waits idle) = h

  -- Every pass keeps it that a row in TP1_HIT or TP2_HIT has a managed stop.
  pub track_row-IsManaged :
      (price : W) (now : ℕ) (s : SignalRow W) → IsManaged s → IsManaged (track_row price now s)
  unfolding track_row
  track_row-IsManaged price now s h = elim (Bool-cases (is_tracked s.status)) [
    | inl e ↦ rw e (Branch-IsManaged price now s h (track-Branch price now s))
    | inr e ↦ rw e h
  ]

  track_ticks-IsManaged :
      (ticks : List (W × ℕ)) (s : SignalRow W) → IsManaged s → IsManaged (track_ticks ticks s)
  track_ticks-IsManaged [] s h = h
  track_ticks-IsManaged ((price, now) ∷ ticks) s h =
      track_ticks-IsManaged ticks (track_row price now s) (track_row-IsManaged price now s h)

  Branch-closes :
      (price : W) (now : ℕ) (s : SignalRow W) {es : List (Effect W)}
      → IsManaged s
      → is_active s.status || is_partial s.status ≡ true
      → hits_stop s price ≡ true
      → Branch price now s es
      → rank (apply_all es s).status ≡ 4
  unfolding apply_all apply
  Branch-closes price now s h opens hit (expires _ _) = refl
  Branch-closes price now s h opens hit (enters pre _) = absurd (open_not_pre s.status opens pre)
  Branch-closes price now s h opens hit (dies _ _) = refl
  Branch-closes price now s h opens hit (fails _ _) = refl
  Branch-closes price now s h opens hit (stops _ _ _) = refl
  Branch-closes price now s h opens hit (advances _ a b) =
      absurd (no_advance s.status _ _ opens hit h a b)
  Branch-closes price now s h opens hit (waits idle) = cc

  -- A signal that starts before its first target, after any ticks at all: if it is open then and
  -- the price is at its stop, the next pass closes it.
  pub stop_closes :
      (ticks : List (W × ℕ)) (s : SignalRow W) (price : W) (now : ℕ)
      → is_partial s.status ≡ false
      → is_active (track_ticks ticks s).status || is_partial (track_ticks ticks s).status ≡ true
      → hits_stop (track_ticks ticks s) price ≡ true
      → rank (track_row price now (track_ticks ticks s)).status ≡ 4
  unfolding track_row
  stop_closes ticks s price now start opens hit =
      let t = track_ticks ticks s in
      let managed = track_ticks-IsManaged ticks s (λ p. cc) in
      rw (opens_tracked t.status opens)
        (Branch-closes price now t managed opens hit (track-Branch price now t))
