-- ===== src/SignalsPage/Moves.antt =====
-- apps/web/src/app/signals: what one move in the log of a signal adds to the targets that are shown.
use mmxm.Prelude.{
  ℕ, ◌≤◌, ◌≡◌, ◌≢◌, refl, sym, ◌∙◌, Bool, true, false, ◌||◌, Option, none, some, List, leb, arith,
}
use mmxm.Types.{
  SignalStatus, watching, preliminary, confirmed, tp1_hit, tp2_hit, completed, stopped,
}
use mmxm.Track.{is_pre_entry, is_partial}
use mmxm.Track.Legal.{
  Legal, to_expired, to_active, to_invalidated, to_failed, to_stopped, first_target, second_target,
  third_target, again,
}
use mmxm.SignalApi.{same_status}
use mmxm.Worker.Rows.{SignalEvent}
use mmxm.Worker.Chronicle.{Edge, born, confirms, lives, Log, ends, goes}
use mmxm.SignalsPage.{tp_hit_count, hit_level_of, is_level}

-- What one entry of the log does for the target of level `k`.
unfoldable pub hits_here : ℕ → SignalStatus → Bool
hits_here k completed = true
hits_here k s = is_level k (hit_level_of s)

unfoldable pub count_at : Option SignalStatus → ℕ
count_at none = 0
count_at (some s) = tp_hit_count s

pub or_false : (b : Bool) → b || false ≡ b
or_false true = refl
or_false false = refl

pub or_assoc : (a b c : Bool) → (a || b) || c ≡ b || (a || c)
or_assoc true true c = refl
or_assoc true false c = refl
or_assoc false true c = refl
or_assoc false false c = refl

pub or_assoc_right : (a b c : Bool) → (a || b) || c ≡ a || (b || c)
or_assoc_right true b c = refl
or_assoc_right false b c = refl

pub stopped-cases : (s : SignalStatus) → (same_status s stopped ≡ true → s ≡ stopped)
stopped-cases stopped e = refl
stopped-cases s e = cc

pub not_stopped : (s : SignalStatus) → same_status s stopped ≡ false → s ≢ stopped
not_stopped stopped e = λ q. cc
not_stopped s e = λ q. cc

pub completed-cases : (s : SignalStatus) → (same_status s completed ≡ true → s ≡ completed)
completed-cases completed e = refl
completed-cases s e = cc

module _ (k : ℕ) (low : 1 ≤ k) (high : k ≤ 3) where
  pub none_at_zero : leb k 0 ≡ false
  none_at_zero = ground arith

  pre-count : (s : SignalStatus) → is_pre_entry s ≡ true → leb k (tp_hit_count s) ≡ false
  pre-count watching e = none_at_zero
  pre-count preliminary e = none_at_zero
  pre-count confirmed e = none_at_zero
  pre-count s e = cc

  -- An edge that does not end in STOPPED counts just its own target.
  Legal-counts :
      {a b : SignalStatus}
      → Legal a b
      → b ≢ stopped
      → hits_here k b || leb k (tp_hit_count a) ≡ leb k (tp_hit_count b)
  unfolding hits_here
  Legal-counts (to_expired {s} pre) go_on = rw (pre-count s pre) (sym none_at_zero)
  Legal-counts (to_active {s} pre) go_on = rw (pre-count s pre) (sym none_at_zero)
  Legal-counts (to_invalidated {s} pre) go_on = rw (pre-count s pre) (sym none_at_zero)
  Legal-counts to_failed go_on = refl
  Legal-counts (to_stopped p) go_on = absurd (go_on refl)
  Legal-counts first_target go_on = ground arith
  Legal-counts second_target go_on = ground arith
  Legal-counts third_target go_on = ground arith
  Legal-counts again go_on = ground arith

  pub Edge-counts :
      {x : Option SignalStatus} {b : SignalStatus}
      → Edge x b
      → b ≢ stopped
      → hits_here k b || leb k (count_at x) ≡ leb k (tp_hit_count b)
  unfolding hits_here count_at
  Edge-counts born go_on = refl
  Edge-counts confirms go_on = refl
  Edge-counts (lives l) go_on = Legal-counts l go_on

-- Nothing leaves STOPPED.
Legal-leaves : {a b : SignalStatus} → Legal a b → a ≢ stopped
Legal-leaves (to_expired {s} pre) = λ e. let bad : is_pre_entry stopped ≡ true = rw e at pre in cc
Legal-leaves (to_active {s} pre) = λ e. let bad : is_pre_entry stopped ≡ true = rw e at pre in cc
Legal-leaves (to_invalidated {s} pre) =
    λ e. let bad : is_pre_entry stopped ≡ true = rw e at pre in cc
Legal-leaves to_failed = λ e. cc
Legal-leaves (to_stopped {s} p) = λ e. let bad : is_partial stopped ≡ true = rw e at p in cc
Legal-leaves first_target = λ e. cc
Legal-leaves second_target = λ e. cc
Legal-leaves third_target = λ e. cc
Legal-leaves again = λ e. cc

Edge-leaves : {x : Option SignalStatus} {b : SignalStatus} → Edge x b → x ≢ some stopped
Edge-leaves born = λ e. cc
Edge-leaves confirms = λ e. cc
Edge-leaves (lives l) = λ e. Legal-leaves l cc

pub Log-stays :
    {x y : Option SignalStatus} {es : List SignalEvent}
    → Log x es y
    → x ≡ some stopped
    → y ≡ some stopped
Log-stays ends h = h
Log-stays (goes e edge leveled l) h = absurd (Edge-leaves edge (sym e ∙ h))

-- A signal is stopped only after its first target.
Legal-stopped : {a b : SignalStatus} → Legal a b → b ≡ stopped → leb 1 (tp_hit_count a) ≡ true
Legal-stopped (to_expired pre) = λ e. cc
Legal-stopped (to_active pre) = λ e. cc
Legal-stopped (to_invalidated pre) = λ e. cc
Legal-stopped to_failed = λ e. cc
Legal-stopped (to_stopped {s} p) = λ e. partial s p
  where
    partial : (s : SignalStatus) → is_partial s ≡ true → leb 1 (tp_hit_count s) ≡ true
    partial tp1_hit h = refl
    partial tp2_hit h = refl
    partial s h = cc
Legal-stopped first_target = λ e. cc
Legal-stopped second_target = λ e. cc
Legal-stopped third_target = λ e. cc
Legal-stopped again = λ e. cc

pub Edge-stopped :
    {x : Option SignalStatus} {b : SignalStatus}
    → Edge x b
    → b ≡ stopped
    → leb 1 (count_at x) ≡ true
unfolding count_at
Edge-stopped born = λ e. cc
Edge-stopped confirms = λ e. cc
Edge-stopped (lives l) = λ e. Legal-stopped l e

pub hits_here-completed : (k : ℕ) (s : SignalStatus) → s ≡ completed → hits_here k s ≡ true
unfolding hits_here
hits_here-completed k completed e = refl
hits_here-completed k s e = cc

pub hits_here-else :
    (k : ℕ) (s : SignalStatus)
    → same_status s completed ≡ false
    → hits_here k s ≡ is_level k (hit_level_of s)
unfolding hits_here
hits_here-else k completed e = cc
hits_here-else k s e = refl
