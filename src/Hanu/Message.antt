-- ===== src/Hanu/Message.antt =====
-- hanu/message.go
pub mod Mentions
use go_util.Prelude.{
  ℕ, Bool, true, false, not, ◌&&◌, ◌||◌, List, [], ◌∷◌, ◌++◌, length, take, drop, ltb, ◌==◌,
  if◌then◌else◌, Option, none, some,
}
use go_util.Hanu.Bytes.{and_then, has_prefix, has_suffix, equal, contains, second_part}

pub record Message : Type 0 where
  pub id : ℕ
  pub types : List ℕ  -- the field `Type`
  pub channel : List ℕ
  pub user_id : List ℕ
  pub message : List ℕ

-- What hanu calls of the standard library on a text: the submatches of `<(.*?)>` in it
-- (regexp.FindAllStringSubmatch), and strings.Replace of every occurrence.
pub record Texts : Type 0 where
  pub find_links : List ℕ → List (List ℕ)
  pub replace_all : List ℕ → List ℕ → List ℕ → List ℕ

unfoldable pub is_message : Message → Bool
is_message m = equal m.types (109 ∷ 101 ∷ 115 ∷ 115 ∷ 97 ∷ 103 ∷ 101 ∷ [])

unfoldable pub is_from : Message → List ℕ → Bool
is_from m user = equal m.user_id user

unfoldable pub set_text : Message → List ℕ → Message
set_text m text = record m { message = text }

-- "<@" + user + ">"
abbrev pub mention : List ℕ → List ℕ
mention user = 60 ∷ 64 ∷ (user ++ (62 ∷ []))

-- "<@" + user + "> "
abbrev pub prefix_of : List ℕ → List ℕ
prefix_of user = 60 ∷ 64 ∷ (user ++ (62 ∷ 32 ∷ []))

unfoldable pub strip_mention : Message → List ℕ → Message
strip_mention m user =
    let prefix = prefix_of user in
    if has_prefix m.message prefix then set_text m (drop (length prefix) m.message) else m

-- A tag of a channel, a user or a special.
abbrev is_tag : List ℕ → Bool
is_tag link =
    equal (take 2 link) (35 ∷ 67 ∷ [])
    || (equal (take 2 link) (64 ∷ 85 ∷ []) || equal (take 1 link) (33 ∷ []))

-- One round of the loop; `none` is the panic of link[:2] on a link of fewer than two bytes.
unfoldable pub strip_link : Texts → List ℕ → List ℕ → Option (List ℕ)
strip_link texts link text =
    if ltb (length link) 2
    then none
    else if is_tag link
    then some text
    else (let url = if contains link 124 then second_part link 124 else link in
        some (texts.replace_all text (60 ∷ (link ++ (62 ∷ []))) url))

unfoldable pub strip_links : Texts → List (List ℕ) → List ℕ → Option (List ℕ)
strip_links texts [] text = some text
strip_links texts (link ∷ rest) text =
    and_then (strip_link texts link text) (strip_links texts rest)

unfoldable pub strip_link_markup : Texts → Message → Option Message
strip_link_markup texts m =
    and_then (strip_links texts (texts.find_links m.message) m.message)
      (λ text. some (set_text m text))

abbrev help_word : List ℕ
help_word = 104 ∷ 101 ∷ 108 ∷ 112 ∷ []

unfoldable pub is_help_request : Message → Bool
is_help_request m = has_suffix m.message help_word || has_prefix m.message help_word

unfoldable pub is_direct_message : Message → Bool
is_direct_message m = has_prefix m.channel (68 ∷ [])

unfoldable pub is_mention_for : Message → List ℕ → Bool
is_mention_for m user = has_prefix m.message (mention user)

unfoldable pub is_relevant_for : Message → List ℕ → Bool
is_relevant_for m user =
    is_message m && (not (is_from m user) && (is_direct_message m || is_mention_for m user))
