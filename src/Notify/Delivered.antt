-- ===== src/Notify/Delivered.antt =====
-- apps/worker/src/notify.ts with apps/worker/src/track.ts: which moves of a signal the main chat is told.
use mmxm.Prelude.{
  ℕ, ◌≡◌, refl, ◌⊎◌, inl, inr, Bool, true, false, Option, some, none, List, [], ◌∷◌, String, All,
  same_text,
}
use mmxm.Double.{Double}
use mmxm.Types.{SignalStatus, expired}
use mmxm.Track.{SignalRow, Effect, EventName, moved, be_applied, is_tracked, track}
use mmxm.Track.Legal.{
  Legal, to_expired, to_active, to_invalidated, to_failed, to_stopped, first_target, second_target,
  third_target, again, Runs, done, turn, kept, track_row-Runs,
}
use mmxm.Notify.{
  Channels, Notice, Reported, stop_moved, event_notice, tg_send, notify_event, effect_sent,
}

abbrev pub is_expiry : {W : Type 0} → Effect W → Bool
is_expiry (moved from expired event level) = true
is_expiry _ = false

-- The main chat gets no message of an expiry, and one message of everything else.
abbrev pub IsReported : {W : Type 0} → Channels W → String → SignalRow W → W → Effect W → Type 0
IsReported {W} ch chat s price e =
    ((is_expiry e ≡ true) × (effect_sent ch s price e ≡ []))
    ⊎ ((is_expiry e ≡ false) × ((n : Notice W) × (effect_sent ch s price e ≡ (chat, n) ∷ [])))

module _ {W : Type 0} (ch : Channels W) (chat : String) (s : SignalRow W)
    (token : ch.has_token ≡ true) (main : ch.chat ≡ some chat)
    (given : same_text chat "" ≡ false) where
  told :
      (reported : Reported) (price : W) (n : Notice W)
      → event_notice s.direction s.preferred_entry price reported ≡ some n
      → notify_event ch s.direction s.preferred_entry reported price ≡ (chat, n) ∷ []
  unfolding notify_event tg_send
  told reported price n e = rw e (simp (token, main, given))

  not_told :
      (reported : Reported) (price : W)
      → event_notice s.direction s.preferred_entry price reported ≡ none
      → notify_event ch s.direction s.preferred_entry reported price ≡ []
  unfolding notify_event
  not_told reported price e = rw e (simp (token, main, given))

  Legal-IsReported :
      {a b : SignalStatus} (price : W) (event : EventName) (level : Option ℕ)
      → Legal a b
      → IsReported ch chat s price (moved a b event level)
  unfolding effect_sent
  Legal-IsReported price event level (to_expired pre) = inl (refl, not_told _ price refl)
  Legal-IsReported price event level (to_active pre) = inr (refl, (_, told _ price _ refl))
  Legal-IsReported price event level (to_invalidated pre) = inr (refl, (_, told _ price _ refl))
  Legal-IsReported price event level to_failed = inr (refl, (_, told _ price _ refl))
  Legal-IsReported price event level (to_stopped p) = inr (refl, (_, told _ price _ refl))
  Legal-IsReported price event level first_target = inr (refl, (_, told _ price _ refl))
  Legal-IsReported price event level second_target = inr (refl, (_, told _ price _ refl))
  Legal-IsReported price event level third_target = inr (refl, (_, told _ price _ refl))
  Legal-IsReported price event level again = inr (refl, (_, told _ price _ refl))

  be_applied-IsReported : (price entry : W) → IsReported ch chat s price (be_applied entry)
  unfolding effect_sent
  be_applied-IsReported price entry = inr (refl, (_, told stop_moved entry _ refl))

  Runs-IsReported :
      {a c : SignalStatus} {es : List (Effect W)} (price : W)
      → Runs a es c
      → All (IsReported ch chat s price) es
  Runs-IsReported price done = tt
  Runs-IsReported price (turn {event} {level} l r) =
      (Legal-IsReported price event level l, Runs-IsReported price r)
  Runs-IsReported price (kept {price = entry} r) =
      (be_applied-IsReported price entry, Runs-IsReported price r)

module _ {W : Type 0} ⦃d : Double W⦄ where
  -- With a token and a main chat that is not empty, each move of a tracked signal in a pass, other than its
  -- expiry, sends one message, and that to the main chat; an expiry sends none. No other chat is sent
  -- anything of them.
  pub track-IsReported :
      (ch : Channels W) (chat : String) (price : W) (now : ℕ) (s : SignalRow W)
      → ch.has_token ≡ true
      → ch.chat ≡ some chat
      → same_text chat "" ≡ false
      → is_tracked s.status ≡ true
      → All (IsReported ch chat s price) (track price now s)
  track-IsReported ch chat price now s token main given tracked =
      Runs-IsReported ch chat s token main given price ((track_row-Runs price now s).0 tracked)
