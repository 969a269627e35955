-- ===== src/Tests/Hanu.antt =====
-- hanu: a bot with one command, asked in a channel.
use go_util.Prelude.{
  ℕ, ◌≡◌, refl, true, false, none, some, List, [], ◌∷◌, ◌++◌, All, if◌then◌else◌, ◌==◌,
}
use go_util.Hanu.Bytes.{equal, has_prefix, has_suffix}
use go_util.Hanu.Message.{
  Message, Texts, set_text, prefix_of, strip_mention, is_message, is_from, is_direct_message,
  is_mention_for, is_help_request, is_relevant_for,
}
use go_util.Hanu.Bot.{Bot, Command, search_command}
use go_util.Hanu.Bot.Answers.{IsAnswer, process-IsAnswer, process_mention}

-- "ping", which the command matches with its length.
abbrev ping : List ℕ
ping = 112 ∷ 105 ∷ 110 ∷ 103 ∷ []

abbrev command : Command ℕ
command = record {
  text = ping;
  matches = λ text. elim text [ [] ↦ none | x ∷ xs ↦ some x ];
  description = [];
}

abbrev bot : Bot ℕ
bot = record { id = 66 ∷ []; has_socket = true; commands = command ∷ [] }

-- A text that starts with `<` has the link of one byte, any other has none.
abbrev texts : Texts
texts = record {
  find_links = λ text. elim text [ [] ↦ [] | x ∷ xs ↦ if x == 60 then (33 ∷ []) ∷ [] else [] ];
  replace_all = λ text old new. text;
}

abbrev asked : Message
asked = record {
  id = 1;
  types = 109 ∷ 101 ∷ 115 ∷ 115 ∷ 97 ∷ 103 ∷ 101 ∷ [];
  channel = 67 ∷ [];
  user_id = 85 ∷ [];
  message = prefix_of (66 ∷ []) ++ ping;
}

-- "<@B> <!>"
abbrev shouted : Message
shouted = set_text asked (prefix_of (66 ∷ []) ++ (60 ∷ 33 ∷ 62 ∷ []))

asked-is_message : is_message asked ≡ true
unfolding is_message equal
asked-is_message = refl

asked-is_from : is_from asked (66 ∷ []) ≡ false
unfolding is_from equal
asked-is_from = refl

asks_no_help : is_help_request (set_text asked ping) ≡ false
unfolding is_help_request set_text has_suffix has_prefix equal
asks_no_help = refl

is_public : is_direct_message asked ≡ false
unfolding is_direct_message has_prefix
is_public = refl

shouted-is_relevant_for : is_relevant_for shouted (66 ∷ []) ≡ true
unfolding is_relevant_for is_message is_from is_direct_message is_mention_for has_prefix equal
    set_text
shouted-is_relevant_for = refl

shouted_links : texts.find_links (strip_mention shouted (66 ∷ [])).message ≡ (33 ∷ []) ∷ []
unfolding strip_mention has_prefix set_text
shouted_links = refl

process-IsAnswer_example : All (IsAnswer asked) (search_command bot (set_text asked ping))
process-IsAnswer_example =
    process-IsAnswer texts [] bot asked (search_command bot (set_text asked ping)) is_public (
      process_mention texts [] ping bot asked asked-is_message asked-is_from refl refl asks_no_help)
