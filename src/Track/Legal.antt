-- ===== src/Track/Legal.antt =====
-- apps/worker/src/track.ts: the transitions of a signal's status, as a relation.
use mmxm.Prelude.{
  ℕ, zero, suc, ◌≤◌, ◌≡◌, refl, Bool, true, false, ◌||◌, Option, List, [], ◌∷◌, ◌++◌, arith, leb,
  if◌then◌else◌, Bool-cases, inl, inr,
}
use mmxm.Double.{Double}
use mmxm.Types.{
  SignalStatus, watching, preliminary, confirmed, active, invalidated, expired, tp1_hit, tp2_hit,
  completed, stopped, failed,
}
use mmxm.Track.{
  SignalRow, Effect, moved, be_applied, EventName, is_pre_entry, is_active, is_partial, is_tracked,
  level_of, status_at, climb, apply, apply_all, progress, track, track_row,
}
use mmxm.Track.Branches.{Branch, expires, enters, dies, fails, stops, advances, waits, track-Branch}

-- The edges of the life of a signal. `again` is a target numbered above 3.
pub data Legal : SignalStatus → SignalStatus → Type 0 where
  to_expired : {s : SignalStatus} → is_pre_entry s ≡ true → Legal s expired
  to_active : {s : SignalStatus} → is_pre_entry s ≡ true → Legal s active
  to_invalidated : {s : SignalStatus} → is_pre_entry s ≡ true → Legal s invalidated
  to_failed : Legal active failed
  to_stopped : {s : SignalStatus} → is_partial s ≡ true → Legal s stopped
  first_target : Legal active tp1_hit
  second_target : Legal tp1_hit tp2_hit
  third_target : Legal tp2_hit completed
  again : Legal completed completed

-- Effects whose transitions start where the one before ended, each along an edge.
pub data Runs {W : Type 0} : SignalStatus → List (Effect W) → SignalStatus → Type 0 where
  done : {s : SignalStatus} → Runs s [] s
  turn :
      {a b c : SignalStatus} {event : EventName} {level : Option ℕ} {es : List (Effect W)}
      → Legal a b
      → Runs b es c
      → Runs a (moved a b event level ∷ es) c
  kept :
      {a c : SignalStatus} {price : W} {es : List (Effect W)}
      → Runs a es c
      → Runs a (be_applied price ∷ es) c

-- How far a status is on its way: the closed ones are last.
abbrev pub rank : SignalStatus → ℕ
rank watching = 0
rank preliminary = 0
rank confirmed = 0
rank active = 1
rank tp1_hit = 2
rank tp2_hit = 3
rank _ = 4

-- A status and the next level of it.
data Before : SignalStatus → ℕ → Type 0 where
  before_first : Before active 1
  before_second : Before tp1_hit 2
  before_third : Before tp2_hit 3
  after_third : (n : ℕ) → Before completed (suc (suc (suc (suc n))))

rank_le : (s : SignalStatus) → rank s ≤ 4
rank_le watching = omega arith
rank_le preliminary = omega arith
rank_le confirmed = omega arith
rank_le active = omega arith
rank_le tp1_hit = omega arith
rank_le tp2_hit = omega arith
rank_le s = omega arith

rank-pre : (s : SignalStatus) → is_pre_entry s ≡ true → rank s ≤ 0
rank-pre watching e = omega arith
rank-pre preliminary e = omega arith
rank-pre confirmed e = omega arith
rank-pre s e = cc

Legal-rank : {a b : SignalStatus} → Legal a b → rank a ≤ rank b
Legal-rank (to_expired {s} e) = rank_le s
Legal-rank (to_active {s} e) = omega (arith, rank-pre s e)
Legal-rank (to_invalidated {s} e) = rank_le s
Legal-rank to_failed = omega arith
Legal-rank (to_stopped {s} e) = rank_le s
Legal-rank first_target = omega arith
Legal-rank second_target = omega arith
Legal-rank third_target = omega arith
Legal-rank again = omega arith

Before-next :
    {s : SignalStatus} {level : ℕ}
    → Before s level
    → Legal s (status_at level) × Before (status_at level) (suc level)
Before-next before_first = (first_target, before_second)
Before-next before_second = (second_target, before_third)
Before-next before_third = (third_target, after_third 0)
Before-next (after_third n) = (again, after_third (suc n))

Before-opens : (s : SignalStatus) → is_active s || is_partial s ≡ true → Before s (suc (level_of s))
Before-opens active h = before_first
Before-opens tp1_hit h = before_second
Before-opens tp2_hit h = before_third
Before-opens s h = cc

module _ {W : Type 0} where
  one_turn :
      {a b : SignalStatus} {event : EventName} {level : Option ℕ}
      → Legal a b
      → (c : SignalStatus) × Runs {W = W} a (moved a b event level ∷ []) c
  one_turn {b} l = (b, turn l done)

  failing :
      (a : SignalStatus) {event : EventName} {level : Option ℕ}
      → is_active a ≡ true
      → (c : SignalStatus) × Runs {W = W} a (moved a failed event level ∷ []) c
  failing active e = one_turn to_failed
  failing a e = cc

  kept_if :
      (b : Bool) (price : W) {s : SignalStatus} → Runs s (if b then be_applied price ∷ [] else []) s
  kept_if true price = kept done
  kept_if false price = done

  Runs-rank : {a c : SignalStatus} {es : List (Effect W)} → Runs a es c → rank a ≤ rank c
  Runs-rank done = omega arith
  Runs-rank (turn l r) = omega (arith, Legal-rank l, Runs-rank r)
  Runs-rank (kept r) = Runs-rank r

  Runs-append :
      {a b c : SignalStatus} {es fs : List (Effect W)}
      → Runs a es b
      → Runs b fs c
      → Runs a (es ++ fs) c
  Runs-append done k = k
  Runs-append (turn l r) k = turn l (Runs-append r k)
  Runs-append (kept r) k = kept (Runs-append r k)

  apply_all-status :
      {a c : SignalStatus} {es : List (Effect W)} (s : SignalRow W)
      → Runs a es c
      → s.status ≡ a
      → (apply_all es s).status ≡ c
  unfolding apply_all apply
  apply_all-status s done h = h
  apply_all-status s (turn {a} {b} {event} {level} l r) h =
      apply_all-status (apply (moved a b event level) s) r refl
  apply_all-status s (kept {price} r) h = apply_all-status (apply (be_applied price) s) r h

  pub apply_all-direction :
      (es : List (Effect W)) (s : SignalRow W) → (apply_all es s).direction ≡ s.direction
  unfolding apply_all apply
  apply_all-direction [] s = refl
  apply_all-direction (moved a b event level ∷ es) s = apply_all-direction es _
  apply_all-direction (be_applied price ∷ es) s = apply_all-direction es _

  climb-Runs :
      (fuel : ℕ) {cur : SignalStatus} {level : ℕ} (max : ℕ)
      → Before cur level
      → (c : SignalStatus) × Runs {W = W} cur (climb fuel cur level max) c
  unfolding climb
  climb-Runs zero {cur} max h = (cur, done)
  climb-Runs (suc fuel) {cur} {level} max h = elim (Bool-cases (leb level max)) [
    | inr e ↦ (cur, rw e done)
    | inl e ↦
        let (edge, next) = Before-next h in
        let (c, r) = climb-Runs fuel max next in (c, rw e (turn edge r))
  ]

  progress-Runs :
      (s : SignalRow W) (max : ℕ)
      → is_active s.status || is_partial s.status ≡ true
      → (c : SignalStatus) × Runs s.status (progress s max) c
  unfolding progress
  progress-Runs s max h =
      let (c, r) = climb-Runs max max (Before-opens s.status h) in (c, Runs-append r (kept_if _ _))

module _ {W : Type 0} ⦃d : Double W⦄ where
  Branch-end :
      (price : W) (now : ℕ) (s : SignalRow W) {es : List (Effect W)}
      → Branch price now s es
      → (c : SignalStatus) × Runs s.status es c
  Branch-end price now s (expires pre late) = one_turn (to_expired pre)
  Branch-end price now s (enters pre inside) = one_turn (to_active pre)
  Branch-end price now s (dies pre hit) = one_turn (to_invalidated pre)
  Branch-end price now s (fails opens hit) = failing s.status opens
  Branch-end price now s (stops partial hit managed) = one_turn (to_stopped partial)
  Branch-end price now s (advances opens a b) = progress-Runs s _ opens
  Branch-end price now s (waits idle) = (s.status, done)

  -- One pass of the tracker over a row is a run of the life of a signal that starts at the status
  -- of the row before and ends at its status after: each transition starts where the one before
  -- ended and is an edge of `Legal`. A row whose status is not tracked is left as it is.
  pub track_row-Runs :
      (price : W) (now : ℕ) (s : SignalRow W)
      → (is_tracked s.status ≡ true
          → Runs s.status (track price now s) (track_row price now s).status)
        × (is_tracked s.status ≡ false → track_row price now s ≡ s)
  unfolding track_row
  track_row-Runs price now s =
      let (c, r) = Branch-end price now s (track-Branch price now s) in
      (λ e. rw (e, apply_all-status s r refl) r, λ e. rw e refl)

  -- The rank of a row's status never falls in a pass, whatever the tick and the time.
  pub track_row-rank :
      (price : W) (now : ℕ) (s : SignalRow W) → rank s.status ≤ rank (track_row price now s).status
  track_row-rank price now s =
      let (runs, same) = track_row-Runs price now s in
      elim (Bool-cases (is_tracked s.status)) [
        | inl e ↦ Runs-rank (runs e)
        | inr e ↦ rw (same e) (omega arith)
      ]

  -- The row after a pass is what the effects make of it.
  pub track_row_effects :
      (price : W) (now : ℕ) (s : SignalRow W)
      → track_row price now s ≡ apply_all (if is_tracked s.status then track price now s else []) s
  unfolding track_row apply_all
  track_row_effects price now s = elim (Bool-cases (is_tracked s.status)) [
    | inl e ↦ rw e refl
    | inr e ↦ rw e refl
  ]
