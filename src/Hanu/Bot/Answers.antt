-- ===== src/Hanu/Bot/Answers.antt =====
-- Whom the bot answers, and with what.
use go_util.Prelude.{
  ℕ, ◌<◌, ◌≡◌, refl, ◌∙◌, Bool, true, false, Option, none, some, inl, inr, List, [], ◌∷◌, ◌++◌,
  length, All, All-append, ◌||◌, Bool-cases,
}
use go_util.Hanu.Bytes.{has_prefix, has_prefix-append}
use go_util.Hanu.Message.{
  Message, Texts, set_text, prefix_of, strip_mention, strip_links, strip_link_markup, is_message,
  is_from, is_direct_message, is_help_request, is_relevant_for,
}
use go_util.Hanu.Message.Mentions.{
  SameSender, strip_mention-SameSender, strip_link_markup-SameSender, strip_mention-prefix_of,
  is_mention_for-prefix_of, strip_links_panics,
}
use go_util.Hanu.Bot.{
  Bot, Command, Action, sent, handled, address, addressed, new_conversation, found_command,
  search_from, search_command, help_lines, send_help, answer, process,
}

-- A message that is sent goes to the channel of `msg` and starts by addressing its sender; a handler
-- that is started has a command that matches the text, and a conversation with that sender there.
unfoldable pub IsAnswer : {Match : Type 0} → Message → Action Match → Type 0
IsAnswer msg (sent m) =
    (m.channel ≡ msg.channel) × (has_prefix m.message (address msg.user_id) ≡ true)
IsAnswer msg (handled cmd c) =
    SameSender msg c.message × (cmd.matches c.message.message ≡ some c.match_of)

module _ {Match : Type 0} where
  found_command-IsAnswer :
      (b : Bot Match) (msg n : Message) (cmd : Command Match) (m : Option Match)
      → SameSender msg n
      → cmd.matches n.message ≡ m
      → All (IsAnswer msg) (found_command b n cmd m)
  unfolding found_command IsAnswer new_conversation
  found_command-IsAnswer b msg n cmd none same e = tt
  found_command-IsAnswer b msg n cmd (some m) same e = ((same, e), tt)

  search_from-IsAnswer :
      (b : Bot Match) (cmds : List (Command Match)) (msg n : Message)
      → SameSender msg n
      → All (IsAnswer msg) (search_from b cmds n)
  unfolding search_from
  search_from-IsAnswer b [] msg n same = tt
  search_from-IsAnswer b (cmd ∷ rest) msg n same =
      All-append (IsAnswer msg) (found_command b n cmd (cmd.matches n.message))
        (search_from b rest n)
        (found_command-IsAnswer b msg n cmd (cmd.matches n.message) same refl)
        (search_from-IsAnswer b rest msg n same)

  send_help-IsAnswer :
      (intro : List ℕ) (b : Bot Match) (msg n : Message)
      → SameSender msg n
      → is_direct_message msg ≡ false
      → All (IsAnswer msg) (send_help intro b n)
  unfolding send_help IsAnswer addressed is_direct_message set_text
  send_help-IsAnswer intro b msg n same public = ((same.same_channel, has_address), tt)
    where
      has_address :
          has_prefix (addressed n (intro ++ help_lines b.commands)) (address msg.user_id) ≡ true
      has_address =
          simp (same.same_channel, public, same.same_user)
            (has_prefix-append (address msg.user_id) (intro ++ help_lines b.commands))

  same_actions :
      (msg : Message) (xs ys : List (Action Match))
      → some xs ≡ some ys
      → All (IsAnswer msg) xs
      → All (IsAnswer msg) ys
  same_actions msg xs ys e all = let same : xs ≡ ys = cc e in rw same at all

  answer-IsAnswer :
      (intro : List ℕ) (b : Bot Match) (msg : Message) (actions : List (Action Match))
      (text : Option Message)
      → is_direct_message msg ≡ false
      → ((n : Message) → text ≡ some n → SameSender msg n)
      → answer intro b text ≡ some actions
      → All (IsAnswer msg) actions
  unfolding answer search_command
  answer-IsAnswer intro b msg actions none public same e = absurd (cc e)
  answer-IsAnswer intro b msg actions (some n) public same e =
      elim (Bool-cases (is_help_request n)) [
        | inl h ↦
            same_actions msg (send_help intro b n) actions (rw h at e)
              (send_help-IsAnswer intro b msg n (same n refl) public)
        | inr h ↦
            same_actions msg (search_from b b.commands n) actions (rw h at e)
              (search_from-IsAnswer b b.commands msg n (same n refl))
      ]

  -- In a channel, whatever the bot does on a message is an answer to it: what it sends goes to that
  -- channel and addresses the sender, and a handler has a command that matches and a conversation
  -- with the sender.
  pub process-IsAnswer :
      (texts : Texts) (intro : List ℕ) (b : Bot Match) (msg : Message)
      (actions : List (Action Match))
      → is_direct_message msg ≡ false
      → process texts intro b msg ≡ some actions
      → All (IsAnswer msg) actions
  unfolding process
  process-IsAnswer texts intro b msg actions public e =
      elim (Bool-cases (is_relevant_for msg b.id)) [
        | inr h ↦ same_actions msg [] actions (rw h at e) tt
        | inl h ↦
            answer-IsAnswer intro b msg actions (strip_link_markup texts (strip_mention msg b.id))
              public stripped (rw h at e)
      ]
    where
      stripped :
          (n : Message)
          → strip_link_markup texts (strip_mention msg b.id) ≡ some n
          → SameSender msg n
      stripped n h =
          let first = strip_mention-SameSender msg b.id in
          let second = strip_link_markup-SameSender texts (strip_mention msg b.id) n h in
          record {
            same_channel = second.same_channel ∙ first.same_channel;
            same_user = second.same_user ∙ first.same_user;
          }

  -- A message of another user that starts with the bot's mention, then a text without links that asks
  -- for no help, starts the commands that match exactly that text.
  pub process_mention :
      (texts : Texts) (intro text : List ℕ) (b : Bot Match) (msg : Message)
      → is_message msg ≡ true
      → is_from msg b.id ≡ false
      → msg.message ≡ prefix_of b.id ++ text
      → texts.find_links text ≡ []
      → is_help_request (set_text msg text) ≡ false
      → process texts intro b msg ≡ some (search_command b (set_text msg text))
  unfolding process answer is_relevant_for strip_link_markup strip_links set_text
  process_mention texts intro text b msg real other starts plain no_help =
      simp (relevant, strip_mention-prefix_of msg b.id text starts, plain, no_help) refl
    where
      relevant : is_relevant_for msg b.id ≡ true
      relevant =
          simp (real, other, is_mention_for-prefix_of msg b.id text starts)
            (either (is_direct_message msg))
        where
          either : (direct : Bool) → (direct || true) ≡ true
          either true = refl
          either false = refl

  -- A message that the bot is to answer panics where a link in it has fewer than two bytes.
  process_panics :
      (texts : Texts) (intro : List ℕ) (b : Bot Match) (msg : Message)
      (before after : List (List ℕ)) (short : List ℕ)
      → is_relevant_for msg b.id ≡ true
      → texts.find_links (strip_mention msg b.id).message ≡ before ++ (short ∷ after)
      → length short < 2
      → process texts intro b msg ≡ none
  unfolding process answer strip_link_markup
  process_panics texts intro b msg before after short relevant links h =
      simp
        (
          relevant,
          links,
          strip_links_panics texts before after short (strip_mention msg b.id).message h,
        )
        refl
