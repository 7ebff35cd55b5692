-- ===== src/Bot/Subscribers.antt =====
-- apps/worker/src/telegram-bot.ts: the table of subscribers against the set of chats that wish for signals.
use mmxm.Prelude.{
  ℕ, ◌≡◌, refl, inl, inr, ◌==◌, ==_iff, Bool, true, false, Option, none, some, List, [], ◌∷◌,
  String, same_text, if◌then◌else◌, Distinct, Bool-cases,
}
use mmxm.Bot.{
  Bot, Update, message, callback, Reply, failed, not_ok, updates, same_units, first_word,
  start_command, stop_command, status_command, menu_command, signal_data, status_data, stop_data,
  is_subscribed, subscribe, unsubscribe, send_menu, handle_message, handle_callback, advance,
  dispatch, handle_updates, poll, list_subscribers,
}
use mmxm.Bot.Table.{subscribe-member, unsubscribe-member, subscribe-Distinct, unsubscribe-Distinct}

-- What an update says a chat wishes: signals, no more signals, or nothing new.
abbrev pub Wish : Type 0
Wish = Option Bool

abbrev pub message_wish : List ℕ → Wish
message_wish text =
    if same_units (first_word text) start_command
    then some true
    else if same_units (first_word text) stop_command
    then some false
    else none

abbrev pub press_wish : List ℕ → Wish
press_wish pressed = if same_units pressed stop_data then some false else none

abbrev granted : Wish → Bool → Bool
granted none before = before
granted (some w) before = w

-- The abstract state is the set of the chats that get signals, as a test; an update changes its own chat.
abbrev pub Chats : Type 0
Chats = String → Bool

abbrev set_wish : String → Wish → Chats → Chats
set_wish cid w chats = λ other. if same_text cid other then granted w (chats other) else chats other

abbrev pub spec_step : Update → Chats → Chats
spec_step (message _ none _) chats = chats
spec_step (message _ (some cid) text) chats = set_wish cid (message_wish text) chats
spec_step (callback _ none _) chats = chats
spec_step (callback _ (some cid) pressed) chats = set_wish cid (press_wish pressed) chats

abbrev pub spec_updates : List Update → Chats → Chats
spec_updates [] chats = chats
spec_updates (u ∷ us) chats = spec_updates us (spec_step u chats)

abbrev pub spec_polls : List Reply → Chats → Chats
spec_polls [] chats = chats
spec_polls (failed ∷ rs) chats = spec_polls rs chats
spec_polls (not_ok ∷ rs) chats = spec_polls rs chats
spec_polls (updates us ∷ rs) chats = spec_polls rs (spec_updates us chats)

abbrev pub polls : List Reply → Bot → Bot
polls [] b = b
polls (r ∷ rs) b = polls rs (poll r b)

-- A table stands for a set of chats: it has the same members, and none of them twice.
pub record Represents (b : Bot) (chats : Chats) : Type 0 where
  pub members : (cid : String) → is_subscribed (list_subscribers b) cid ≡ chats cid
  pub once : Distinct (list_subscribers b)

same_units_sound : (xs ys : List ℕ) → same_units xs ys ≡ true → xs ≡ ys
same_units_sound [] [] h = refl
same_units_sound [] (y ∷ ys) h = cc
same_units_sound (x ∷ xs) [] h = cc
same_units_sound (x ∷ xs) (y ∷ ys) h = elim (Bool-cases (x == y)) [
  | inl e ↦ rw ((==_iff x y).0 e, same_units_sound xs ys (rw e at h)) refl
  | inr e ↦ let bad : false ≡ true = rw e at h in cc
]

-- What a wish does to the table.
abbrev grant : String → Wish → List String → List String
grant cid none xs = xs
grant cid (some true) xs = subscribe cid xs
grant cid (some false) xs = unsubscribe cid xs

message-grant :
    (cid : String) (text : List ℕ) (b : Bot)
    → (handle_message cid text b).subscribers ≡ grant cid (message_wish text) b.subscribers
unfolding handle_message send_menu
message-grant cid text b =
    let cmd = first_word text in
    elim (Bool-cases (same_units cmd start_command)) [
      | inl e ↦ rw e refl
      | inr e ↦ elim (Bool-cases (same_units cmd stop_command)) [
        | inl f ↦ rw (e, f) refl
        | inr f ↦ elim (Bool-cases (same_units cmd status_command)) [
          | inl g ↦ rw (e, f, g) refl
          | inr g ↦ elim (Bool-cases (same_units cmd menu_command)) [
            | inl h ↦ rw (e, f, g, h) refl
            | inr h ↦ rw (e, f, g, h) refl
          ]
        ]
      ]
    ]

press-grant :
    (cid : String) (pressed : List ℕ) (b : Bot)
    → (handle_callback cid pressed b).subscribers ≡ grant cid (press_wish pressed) b.subscribers
unfolding handle_callback
press-grant cid pressed b = elim (Bool-cases (same_units pressed signal_data)) [
  | inl e ↦ rw (same_units_sound pressed signal_data e) refl
  | inr e ↦ elim (Bool-cases (same_units pressed status_data)) [
    | inl f ↦ rw (same_units_sound pressed status_data f) refl
    | inr f ↦ elim (Bool-cases (same_units pressed stop_data)) [
      | inl g ↦ rw (e, f, g) refl
      | inr g ↦ rw (e, f, g) refl
    ]
  ]
]

grant-member :
    (cid other : String) (w : Wish) (xs : List String)
    → is_subscribed (grant cid w xs) other
      ≡ (if same_text cid other then granted w (is_subscribed xs other) else is_subscribed xs other)
grant-member cid other none xs = elim (Bool-cases (same_text cid other)) [
  | inl e ↦ rw e refl
  | inr e ↦ rw e refl
]
grant-member cid other (some true) xs = subscribe-member cid other xs
grant-member cid other (some false) xs = unsubscribe-member cid other xs

grant-Distinct :
    (cid : String) (w : Wish) (xs : List String) → Distinct xs → Distinct (grant cid w xs)
grant-Distinct cid none xs d = d
grant-Distinct cid (some true) xs d = subscribe-Distinct cid xs d
grant-Distinct cid (some false) xs d = unsubscribe-Distinct cid xs d

-- A wish done to the table is the wish done to the set.
grant-Represents :
    (cid : String) (w : Wish) (b after : Bot) (chats : Chats)
    → after.subscribers ≡ grant cid w b.subscribers
    → Represents b chats
    → Represents after (set_wish cid w chats)
unfolding list_subscribers
grant-Represents cid w b after chats e r = record {
  members = λ other. rw (e, grant-member cid other w b.subscribers, r.members other) refl;
  once = rw e (grant-Distinct cid w b.subscribers r.once);
}

idle-Represents :
    (b after : Bot) (chats : Chats)
    → after.subscribers ≡ b.subscribers
    → Represents b chats
    → Represents after chats
unfolding list_subscribers
idle-Represents b after chats e r = record {
  members = λ other. rw e (r.members other);
  once = rw e r.once;
}

step-Represents :
    (u : Update) (b : Bot) (chats : Chats)
    → Represents b chats
    → Represents (dispatch u (advance u b)) (spec_step u chats)
unfolding dispatch advance
step-Represents (message id none text) b chats r = idle-Represents b _ chats refl r
step-Represents (message id (some cid) text) b chats r =
    let u = message id (some cid) text in
    grant-Represents cid (message_wish text) b (handle_message cid text (advance u b)) chats
      (message-grant cid text (advance u b)) r
step-Represents (callback id none pressed) b chats r = idle-Represents b _ chats refl r
step-Represents (callback id (some cid) []) b chats r =
    grant-Represents cid none b (advance (callback id (some cid) []) b) chats refl r
step-Represents (callback id (some cid) (c ∷ pressed)) b chats r =
    let u = callback id (some cid) (c ∷ pressed) in
    grant-Represents cid (press_wish (c ∷ pressed)) b
      (handle_callback cid (c ∷ pressed) (advance u b)) chats
      (press-grant cid (c ∷ pressed) (advance u b)) r

handle_updates-Represents :
    (us : List Update) (b : Bot) (chats : Chats)
    → Represents b chats
    → Represents (handle_updates us b) (spec_updates us chats)
unfolding handle_updates
handle_updates-Represents [] b chats r = r
handle_updates-Represents (u ∷ us) b chats r =
    handle_updates-Represents us (dispatch u (advance u b)) (spec_step u chats)
      (step-Represents u b chats r)

-- Whatever polls are answered or fail, a table of subscribers that stands for a set of chats, with none
-- of them twice, stands afterwards for the set that the updates make of it: a chat is in it if its last
-- wish was `/start`, and not if its last wish was `/stop` or a press of stop; without one, as before.
pub polls-Represents :
    (rs : List Reply) (b : Bot) (chats : Chats)
    → Represents b chats
    → Represents (polls rs b) (spec_polls rs chats)
unfolding poll
polls-Represents [] b chats r = r
polls-Represents (failed ∷ rs) b chats r = polls-Represents rs b chats r
polls-Represents (not_ok ∷ rs) b chats r = polls-Represents rs b chats r
polls-Represents (updates us ∷ rs) b chats r =
    polls-Represents rs (handle_updates us b) (spec_updates us chats)
      (handle_updates-Represents us b chats r)
