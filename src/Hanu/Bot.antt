-- ===== src/Hanu/Bot.antt =====
-- The bot of hanu/main.go, with hanu/command.go and hanu/conversation.go.
pub mod Answers
use go_util.Prelude.{
  ℕ, Bool, true, false, not, Option, none, some, List, [], ◌∷◌, ◌++◌, if◌then◌else◌,
}
use go_util.Hanu.Message.{
  Message, Texts, set_text, mention, strip_mention, strip_link_markup, is_help_request,
  is_direct_message, is_relevant_for,
}

-- A command: the allot command is its text and what it matches, a third-party library's value.
pub record Command {ℓ} (Match : Type ℓ) : Type ℓ where
  pub text : List ℕ
  pub matches : List ℕ → Option Match
  pub description : List ℕ

-- The message that is answered and what the command matched in it.
pub record Conversation {ℓ} (Match : Type ℓ) : Type ℓ where
  pub message : Message
  pub match_of : Match
  pub has_socket : Bool

pub record Bot {ℓ} (Match : Type ℓ) : Type ℓ where
  pub id : List ℕ
  pub has_socket : Bool
  pub commands : List (Command Match)

-- What processing a message does: it sends a message, or starts a command's handler.
pub data Action {ℓ} (Match : Type ℓ) : Type ℓ where
  sent : Message → Action Match
  handled : Command Match → Conversation Match → Action Match

-- "<@" + user + ">: "
abbrev pub address : List ℕ → List ℕ
address user = 60 ∷ 64 ∷ (user ++ (62 ∷ 58 ∷ 32 ∷ []))

unfoldable pub addressed : Message → List ℕ → List ℕ
addressed msg text = if not (is_direct_message msg) then address msg.user_id ++ text else text

-- " *–* " and the description, where there is one.
unfoldable pub description_of : List ℕ → List ℕ
description_of [] = []
description_of (x ∷ xs) = 32 ∷ 42 ∷ 226 ∷ 128 ∷ 147 ∷ 42 ∷ 32 ∷ x ∷ xs

module _ {ℓ} {Match : Type ℓ} where
  unfoldable pub new_command : List ℕ → (List ℕ → Option Match) → List ℕ → Command Match
  new_command text matches description = record {
    text = text;
    matches = matches;
    description = description;
  }

  unfoldable pub register : Bot Match → Command Match → Bot Match
  register b cmd = record b { commands = b.commands ++ (cmd ∷ []) }

  unfoldable pub new_conversation : Match → Message → Bool → Conversation Match
  new_conversation m msg has_socket = record {
    message = msg;
    match_of = m;
    has_socket = has_socket;
  }

  -- Conversation.Reply; `text` is what Sprintf made.
  unfoldable pub reply : Conversation Match → List ℕ → List (Action Match)
  reply c text =
      if c.has_socket then sent (set_text c.message (addressed c.message text)) ∷ [] else []

  unfoldable pub found_command :
      Bot Match → Message → Command Match → Option Match → List (Action Match)
  found_command b msg cmd none = []
  found_command b msg cmd (some m) = handled cmd (new_conversation m msg b.has_socket) ∷ []

  -- The loop of searchCommand, over the commands from some index on.
  unfoldable pub search_from : Bot Match → List (Command Match) → Message → List (Action Match)
  search_from b [] msg = []
  search_from b (cmd ∷ rest) msg =
      found_command b msg cmd (cmd.matches msg.message) ++ search_from b rest msg

  unfoldable pub search_command : Bot Match → Message → List (Action Match)
  search_command b msg = search_from b b.commands msg

  -- The lines of the help; `intro` is its first sentence.
  unfoldable pub help_lines : List (Command Match) → List ℕ
  help_lines [] = []
  help_lines (cmd ∷ rest) =
      (96 ∷ cmd.text) ++ ((96 ∷ []) ++ (description_of cmd.description ++ (10 ∷ help_lines rest)))

  unfoldable pub send_help : List ℕ → Bot Match → Message → List (Action Match)
  send_help intro b msg = sent (set_text msg (addressed msg (intro ++ help_lines b.commands))) ∷ []

  -- `none` is a panic of the goroutine, and with it of the bot.
  unfoldable pub answer : List ℕ → Bot Match → Option Message → Option (List (Action Match))
  answer intro b none = none
  answer intro b (some msg) =
      some (if is_help_request msg then send_help intro b msg else search_command b msg)

  unfoldable pub process : Texts → List ℕ → Bot Match → Message → Option (List (Action Match))
  process texts intro b msg =
      if not (is_relevant_for msg b.id)
      then some []
      else answer intro b (strip_link_markup texts (strip_mention msg b.id))
