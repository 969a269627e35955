-- ===== src/Hanu/Message/Mentions.antt =====
-- Stripping the mention and the links of a message.
use go_util.Prelude.{
  ℕ, ◌<◌, ◌≡◌, refl, ap, sym, ◌∙◌, true, Option, none, some, inl, inr, List, [], ◌∷◌, ◌++◌, length,
  drop-append, append_assoc, lt→ltb, Bool-cases, Option-cases,
}
use go_util.Hanu.Bytes.{and_then, has_prefix, has_prefix-append}
use go_util.Hanu.Message.{
  Message, Texts, set_text, mention, prefix_of, strip_mention, strip_link, strip_links,
  strip_link_markup, is_mention_for,
}

pub strip_mention-prefix_of :
    (m : Message) (user rest : List ℕ)
    → m.message ≡ prefix_of user ++ rest
    → strip_mention m user ≡ set_text m rest
unfolding strip_mention
strip_mention-prefix_of m user rest e =
    simp (e, has_prefix-append (prefix_of user) rest, drop-append (prefix_of user) rest) refl

pub is_mention_for-prefix_of :
    (m : Message) (user rest : List ℕ)
    → m.message ≡ prefix_of user ++ rest
    → is_mention_for m user ≡ true
unfolding is_mention_for
is_mention_for-prefix_of m user rest e =
    ap (λ t. has_prefix t (mention user)) (e ∙ split) ∙ has_prefix-append (mention user) (32 ∷ rest)
  where
    split : prefix_of user ++ rest ≡ mention user ++ (32 ∷ rest)
    split =
        ap (λ t. 60 ∷ 64 ∷ t)
          (append_assoc user (62 ∷ 32 ∷ []) rest ∙ sym (append_assoc user (62 ∷ []) (32 ∷ rest)))

-- The same channel and the same sender.
pub record SameSender (m n : Message) : Type 0 where
  pub same_channel : n.channel ≡ m.channel
  pub same_user : n.user_id ≡ m.user_id

pub strip_mention-SameSender : (m : Message) (user : List ℕ) → SameSender m (strip_mention m user)
unfolding strip_mention set_text
strip_mention-SameSender m user = elim (Bool-cases (has_prefix m.message (prefix_of user))) [
  | inl e ↦ rw e (record { same_channel = refl; same_user = refl })
  | inr e ↦ rw e (record { same_channel = refl; same_user = refl })
]

pub strip_link_markup-SameSender :
    (texts : Texts) (m n : Message) → strip_link_markup texts m ≡ some n → SameSender m n
unfolding strip_link_markup set_text
strip_link_markup-SameSender texts m n e =
    of_text (strip_links texts (texts.find_links m.message) m.message) e
  where
    of_text :
        (text : Option (List ℕ))
        → and_then text (λ t. some (set_text m t)) ≡ some n
        → SameSender m n
    of_text none h = absurd (cc h)
    of_text (some t) h =
        let same : record m { message = t } ≡ n = cc h in
        record {
          same_channel = ap (λ x. x.channel) (sym same);
          same_user = ap (λ x. x.user_id) (sym same);
        }

-- A link of fewer than two bytes, wherever it stands, makes the loop panic.
pub strip_links_panics :
    (texts : Texts) (before after : List (List ℕ)) (short text : List ℕ)
    → length short < 2
    → strip_links texts (before ++ (short ∷ after)) text ≡ none
unfolding strip_links strip_link
strip_links_panics texts [] after short text h = rw (lt→ltb (length short) 2 h) refl
strip_links_panics texts (link ∷ before) after short text h =
    elim (Option-cases (strip_link texts link text)) [
      | inl e ↦ rw e refl
      | inr (t, e) ↦ rw e (strip_links_panics texts before after short t h)
    ]
