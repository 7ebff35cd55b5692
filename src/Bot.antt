-- ===== src/Bot.antt =====
-- apps/worker/src/telegram-bot.ts: who gets the signals. The table of subscribers is the list of their
-- chats, oldest first, and a text of a user is the list of its UTF-16 code units. The messages are
-- handled one after the other; what each says to the user is a constructor of `Said`.
pub mod Subscribers
pub mod Table
mod Tests
use mmxm.Prelude.{
  ℕ, suc, ◌==◌, Bool, true, false, not, ◌&&◌, ◌||◌, Option, none, some, List, [], ◌∷◌, ◌++◌, String,
  ltb, leb, same_text, if◌then◌else◌, any, filter,
}

pub data Said : Type 0 where
  welcome buttons goodbye menu unknown_command commands_help farewell : Said
  status_is : Bool → Said

-- An update with its id and chat; a chat that is missing, or is 0, is none.
pub data Update : Type 0 where
  message : ℕ → Option String → List ℕ → Update
  callback : ℕ → Option String → List ℕ → Update

-- What `getUpdates` gives: a failed request, an answer that is not ok, or the updates.
pub data Reply : Type 0 where
  failed not_ok : Reply
  updates : List Update → Reply

pub record Bot : Type 0 where
  pub subscribers : List String
  pub offset : ℕ
  pub said : List (String × Said)

abbrev pub same_units : List ℕ → List ℕ → Bool
same_units [] [] = true
same_units (x ∷ xs) (y ∷ ys) = x == y && same_units xs ys
same_units _ _ = false

-- What `\s` of a regular expression matches, and `trim` takes off.
abbrev pub is_space : ℕ → Bool
is_space c =
    leb 9 c && leb c 13
    || c == 32
    || c == 160
    || c == 5760
    || leb 8192 c && leb c 8202
    || c == 8232
    || c == 8233
    || c == 8239
    || c == 8287
    || c == 12_288
    || c == 65_279

abbrev pub skip_spaces : List ℕ → List ℕ
skip_spaces [] = []
skip_spaces (c ∷ cs) = if is_space c then skip_spaces cs else c ∷ cs

abbrev pub upto_space : List ℕ → List ℕ
upto_space [] = []
upto_space (c ∷ cs) = if is_space c then [] else c ∷ upto_space cs

-- `text.trim().split(/\s+/)[0]`
abbrev pub first_word : List ℕ → List ℕ
first_word text = upto_space (skip_spaces text)

-- `/start`, `/stop`, `/status` and `/menu`
abbrev pub start_command : List ℕ
start_command = 47 ∷ 115 ∷ 116 ∷ 97 ∷ 114 ∷ 116 ∷ []

abbrev pub stop_command : List ℕ
stop_command = 47 ∷ 115 ∷ 116 ∷ 111 ∷ 112 ∷ []

abbrev pub status_command : List ℕ
status_command = 47 ∷ 115 ∷ 116 ∷ 97 ∷ 116 ∷ 117 ∷ 115 ∷ []

abbrev pub menu_command : List ℕ
menu_command = 47 ∷ 109 ∷ 101 ∷ 110 ∷ 117 ∷ []

-- `menu:signal`, `menu:status` and `menu:stop`
abbrev menu_prefix : List ℕ
menu_prefix = 109 ∷ 101 ∷ 110 ∷ 117 ∷ 58 ∷ []

abbrev pub signal_data : List ℕ
signal_data = menu_prefix ++ 115 ∷ 105 ∷ 103 ∷ 110 ∷ 97 ∷ 108 ∷ []

abbrev pub status_data : List ℕ
status_data = menu_prefix ++ 115 ∷ 116 ∷ 97 ∷ 116 ∷ 117 ∷ 115 ∷ []

abbrev pub stop_data : List ℕ
stop_data = menu_prefix ++ 115 ∷ 116 ∷ 111 ∷ 112 ∷ []

pub is_subscribed : List String → String → Bool
is_subscribed subscribers cid = any (λ s. same_text s cid) subscribers

-- `INSERT … ON CONFLICT DO NOTHING`
pub subscribe : String → List String → List String
subscribe cid subscribers =
    if is_subscribed subscribers cid then subscribers else subscribers ++ cid ∷ []

-- `DELETE … WHERE "chatId" = $1`
pub unsubscribe : String → List String → List String
unsubscribe cid subscribers = filter (λ s. not (same_text s cid)) subscribers

abbrev say : String → Said → Bot → Bot
say cid what b = record b { said = b.said ++ (cid, what) ∷ [] }

pub send_menu : String → Bot → Bot
send_menu cid b = say cid buttons (say cid menu b)

pub handle_message : String → List ℕ → Bot → Bot
handle_message cid text b =
    let cmd = first_word text in
    if same_units cmd start_command
    then say cid buttons (say cid welcome (record b { subscribers = subscribe cid b.subscribers }))
    else if same_units cmd stop_command
    then say cid goodbye (record b { subscribers = unsubscribe cid b.subscribers })
    else if same_units cmd status_command
    then say cid (status_is (is_subscribed b.subscribers cid)) b
    else if same_units cmd menu_command
    then send_menu cid b
    else say cid unknown_command b

pub handle_callback : String → List ℕ → Bot → Bot
handle_callback cid pressed b =
    if same_units pressed signal_data
    then say cid commands_help b
    else if same_units pressed status_data
    then say cid (status_is (is_subscribed b.subscribers cid)) b
    else if same_units pressed stop_data
    then say cid farewell (record b { subscribers = unsubscribe cid b.subscribers })
    else b

abbrev pub update_id : Update → ℕ
update_id (message id _ _) = id
update_id (callback id _ _) = id

-- `offset = Math.max(offset, u.update_id + 1)`
pub advance : Update → Bot → Bot
advance u b = record b {
  offset = if ltb b.offset (suc (update_id u)) then suc (update_id u) else b.offset;
}

-- A press without a chat or without data, and a message without a chat, are passed over.
pub dispatch : Update → Bot → Bot
dispatch (message _ none _) b = b
dispatch (message _ (some cid) text) b = handle_message cid text b
dispatch (callback _ none _) b = b
dispatch (callback _ (some cid) []) b = b
dispatch (callback _ (some cid) (c ∷ pressed)) b = handle_callback cid (c ∷ pressed) b

pub handle_updates : List Update → Bot → Bot
handle_updates [] b = b
handle_updates (u ∷ us) b = handle_updates us (dispatch u (advance u b))

pub poll : Reply → Bot → Bot
poll failed b = b
poll not_ok b = b
poll (updates us) b = handle_updates us b

-- `listSubscribers`: oldest first.
pub list_subscribers : Bot → List String
list_subscribers b = b.subscribers
