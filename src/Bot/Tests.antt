-- ===== src/Bot/Tests.antt =====
-- The theorem on the bot at two chats: one starts and stops, the other starts with a space before the
-- command and a word after it.
use mmxm.Prelude.{false, some, List, [], ◌∷◌, ◌++◌, refl}
use mmxm.Bot.{
  Bot, Reply, failed, updates, message, callback, start_command, stop_data, is_subscribed,
  list_subscribers,
}
use mmxm.Bot.Subscribers.{Represents, polls, spec_polls, polls-Represents}

abbrev no_one : Bot
no_one = record { subscribers = []; offset = 0; said = [] }

abbrev replies : List Reply
replies =
    updates (
      message 7 (some "1") start_command
      ∷ message 8 (some "2") (32 ∷ start_command ++ 32 ∷ 97 ∷ [])
      ∷ [])
    ∷ failed
    ∷ updates (callback 9 (some "1") stop_data ∷ [])
    ∷ []

empty : Represents no_one (λ cid. false)
unfolding is_subscribed list_subscribers
empty = record { members = λ cid. refl; once = tt }

polls-Represents_example : Represents (polls replies no_one) (spec_polls replies (λ cid. false))
polls-Represents_example = polls-Represents replies no_one (λ cid. false) empty
