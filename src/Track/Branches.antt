-- ===== src/Track/Branches.antt =====
-- apps/worker/src/track.ts: the branches of one pass over a row, with the conditions of each.
use mmxm.Prelude.{
  ℕ, ◌≡◌, refl, Bool, true, false, ◌&&◌, ◌||◌, none, some, List, [], ◌∷◌, ltb, if◌then◌else◌,
  Bool-cases, inl, inr,
}
use mmxm.Double.{Double}
use mmxm.Types.{expired, active, invalidated, failed, stopped}
use mmxm.Track.{
  SignalRow, Effect, moved, signal_closed, signal_active, is_pre_entry, is_active, is_partial,
  is_some, level_of, progress, track, hit_level, stop_hit, effective_stop, in_entry_zone,
}

and_split : (a b : Bool) → a && b ≡ true → (a ≡ true) × (b ≡ true)
and_split true b e = (refl, e)
and_split false b e = cc

and3_split : (a b c : Bool) → a && b && c ≡ true → (a ≡ true) × (b ≡ true) × (c ≡ true)
and3_split true true c e = (refl, refl, e)
and3_split true false c e = cc
and3_split false b c e = cc

module _ {W : Type 0} ⦃d : Double W⦄ where
  abbrev pub hits_stop : SignalRow W → W → Bool
  hits_stop s price = stop_hit s.direction price (effective_stop s)

  pub data Branch (price : W) (now : ℕ) (s : SignalRow W) : List (Effect W) → Type 0 where
    expires :
        is_pre_entry s.status ≡ true
        → ltb s.expires_at now ≡ true
        → Branch price now s (moved s.status expired signal_closed none ∷ [])
    enters :
        is_pre_entry s.status ≡ true
        → in_entry_zone s price ≡ true
        → Branch price now s (moved s.status active signal_active none ∷ [])
    dies :
        is_pre_entry s.status ≡ true
        → hits_stop s price ≡ true
        → Branch price now s (moved s.status invalidated signal_closed none ∷ [])
    fails :
        is_active s.status ≡ true
        → hits_stop s price ≡ true
        → Branch price now s (moved s.status failed signal_closed none ∷ [])
    stops :
        is_partial s.status ≡ true
        → hits_stop s price ≡ true
        → is_some s.managed_stop ≡ true
        → Branch price now s (moved s.status stopped signal_closed (some (level_of s.status)) ∷ [])
    advances :
        is_active s.status || is_partial s.status ≡ true
        → is_active s.status && hits_stop s price ≡ false
        → is_partial s.status && hits_stop s price && is_some s.managed_stop ≡ false
        → Branch price now s (progress s (hit_level s price))
    waits : is_active s.status || is_partial s.status ≡ false → Branch price now s []

  -- The part of the pass that opened rows reach.
  opened-Branch :
      (price : W) (now : ℕ) (s : SignalRow W)
      → Branch price now s (
          if is_active s.status && hits_stop s price
          then moved s.status failed signal_closed none ∷ []
          else if is_partial s.status && hits_stop s price && is_some s.managed_stop
          then moved s.status stopped signal_closed (some (level_of s.status)) ∷ []
          else if is_active s.status || is_partial s.status
          then progress s (hit_level s price)
          else [])
  opened-Branch price now s = elim (Bool-cases (is_active s.status && hits_stop s price)) [
    | inl e ↦ let (a, b) = and_split _ _ e in rw e (fails a b)
    | inr e ↦
        rw e
          (elim (Bool-cases (is_partial s.status && hits_stop s price && is_some s.managed_stop)) [
            | inl f ↦ let (a, b, c) = and3_split _ _ _ f in rw f (stops a b c)
            | inr f ↦ rw f (elim (Bool-cases (is_active s.status || is_partial s.status)) [
              | inl g ↦ rw g (advances g e f)
              | inr g ↦ rw g (waits g)
            ])
          ])
  ]

  pub track-Branch :
      (price : W) (now : ℕ) (s : SignalRow W) → Branch price now s (track price now s)
  unfolding track
  track-Branch price now s =
      let pre = is_pre_entry s.status in
      elim (Bool-cases (pre && ltb s.expires_at now)) [
        | inl e ↦ let (a, b) = and_split _ _ e in rw e (expires a b)
        | inr e ↦ rw e (elim (Bool-cases (pre && in_entry_zone s price)) [
          | inl f ↦ let (a, b) = and_split _ _ f in rw f (enters a b)
          | inr f ↦ rw f (elim (Bool-cases (pre && hits_stop s price)) [
            | inl g ↦ let (a, b) = and_split _ _ g in rw g (dies a b)
            | inr g ↦ rw g (opened-Branch price now s)
          ])
        ])
      ]
