-- ===== src/Notify.antt =====
-- apps/worker/src/notify.ts: which messages go to which chats. What is sent is the list of the requests,
-- each the chat and the text; no caller reads whether one arrives, and none throws. A message
-- is a constructor of `Notice` with the numbers it shows; its wording and formatting are left out.
pub mod Delivered
mod Tests
use mmxm.Prelude.{
  Bool, true, false, Option, none, some, List, [], ◌∷◌, ◌++◌, String, if◌then◌else◌, ◌&&◌, ◌||◌,
  not, flat_map, same_text,
}
use mmxm.Double.{Double}
use mmxm.Types.{
  Direction, SignalStatus, watching, preliminary, confirmed, active, invalidated, expired, tp1_hit,
  tp2_hit, completed, stopped, failed,
}
use mmxm.Track.{SignalRow, Effect, moved, be_applied}
use mmxm.Gate.{Candidate}

-- The verdict of a language model on a signal.
pub data AiVerdict : Type 0 where
  agree disagree neutral : AiVerdict

pub data Notice (W : Type 0) : Type 0 where
  signal_found : Candidate W → Notice W
  entry_active : Direction → W → W → Notice W
  first_target second_target all_targets : Direction → W → Notice W
  stop_loss_hit break_even stopped_out cancelled : Direction → W → Notice W
  ai_insight : Direction → W → AiVerdict → Notice W

-- The environment: the bot's token and the main chat, which may be missing or empty.
pub record Channels (W : Type 0) : Type 0 where
  pub has_token : Bool
  pub chat : Option String
  pub min_confidence : W

-- The second argument of `notifyEvent`, a status or `BE_APPLIED`.
pub data Reported : Type 0 where
  status_is : SignalStatus → Reported
  stop_moved : Reported

-- `chatId ?? env.TELEGRAM_CHAT_ID`
abbrev pub chat_or : Option String → Option String → Option String
chat_or none main = main
chat_or (some cid) main = some cid

-- Neither missing nor empty.
abbrev pub is_given : Option String → Bool
is_given none = false
is_given (some cid) = not (same_text cid "")

-- A request of `sendMessage`, none without a token or a chat.
abbrev pub posted : {A : Type 0} → Bool → Option String → A → List (String × A)
posted false cid text = []
posted true none text = []
posted true (some cid) text = if same_text cid "" then [] else (cid, text) ∷ []

module _ {W A : Type 0} where
  pub tg_send : Channels W → A → Option String → List (String × A)
  tg_send ch text cid = posted ch.has_token (chat_or cid ch.chat) text

  pub tg_send_to_chat : Channels W → A → String → List (String × A)
  tg_send_to_chat ch text cid = tg_send ch text (some cid)

  pub tg_broadcast : Channels W → A → List String → List (String × A)
  tg_broadcast ch text cids = flat_map (λ cid. tg_send ch text (some cid)) cids

module _ {W : Type 0} where
  abbrev pub is_configured : Channels W → Bool
  is_configured ch = ch.has_token && is_given ch.chat

  -- The cases of `notifyEvent`, with the price at which it happened and the preferred entry.
  abbrev pub event_notice : Direction → W → W → Reported → Option (Notice W)
  event_notice dir entry price (status_is active) = some (entry_active dir price entry)
  event_notice dir entry price (status_is tp1_hit) = some (first_target dir price)
  event_notice dir entry price (status_is tp2_hit) = some (second_target dir price)
  event_notice dir entry price (status_is completed) = some (all_targets dir price)
  event_notice dir entry price (status_is failed) = some (stop_loss_hit dir price)
  event_notice dir entry price stop_moved = some (break_even dir price)
  event_notice dir entry price (status_is stopped) = some (stopped_out dir price)
  event_notice dir entry price (status_is invalidated) = some (cancelled dir price)
  event_notice dir entry price (status_is _) = none

  abbrev send_some : Channels W → Option (Notice W) → List (String × Notice W)
  send_some ch none = []
  send_some ch (some n) = tg_send ch n none

  pub notify_event : Channels W → Direction → W → Reported → W → List (String × Notice W)
  notify_event ch dir entry reported price =
      if is_configured ch then send_some ch (event_notice dir entry price reported) else []

  -- The calls of `notifyEvent` in the tracker: a transition with the price of the tick, the move of the
  -- stop with the entry.
  pub effect_sent : Channels W → SignalRow W → W → Effect W → List (String × Notice W)
  effect_sent ch s price (moved from to event level) =
      notify_event ch s.direction s.preferred_entry (status_is to) price
  effect_sent ch s price (be_applied entry) =
      notify_event ch s.direction s.preferred_entry stop_moved entry

module _ {W : Type 0} ⦃d : Double W⦄ where
  open d use {lt}

  pub notify_signal : Channels W → Candidate W → List (String × Notice W)
  notify_signal ch sig =
      if not (is_configured ch) || lt sig.confidence_score ch.min_confidence
      then []
      else tg_send ch (signal_found sig) none

  pub notify_insight : Channels W → Candidate W → AiVerdict → List (String × Notice W)
  notify_insight ch sig verdict =
      if not (is_configured ch) || lt sig.confidence_score ch.min_confidence
      then []
      else tg_send ch (ai_insight sig.direction sig.confidence_score verdict) none
