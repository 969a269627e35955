-- ===== src/Tests/ReadFile.antt =====
-- Tests of multithreadReadfile/multiThreadRead.go, on a file of nine bytes and a limit of four.
use go_util.Prelude.{ℕ, ◌+◌, ◌≡◌, refl, List, [], ◌∷◌, ◌==◌, if◌then◌else◌, arith}
use go_util.Prelude.Dict.{lookup, bytes_key}
use go_util.ReadFile.Words.{pieces_from, pieces, send_word, read_loop, read}
use go_util.ReadFile.Words.Chunks.{all_words, gap, is_space, first_word}
use go_util.ReadFile.Counts.{
  value, tally, Interleaving, from_first, from_second, closed, count, sent_by, current, counts-file,
}

-- strings.TrimSpace for a word without a space inside.
unfoldable without_spaces : List ℕ → List ℕ
without_spaces [] = []
without_spaces (c ∷ s) = let rest = without_spaces s in if c == 32 then rest else c ∷ rest

-- "a bc d e "
abbrev text : List ℕ
text = 97 ∷ 32 ∷ 98 ∷ 99 ∷ 32 ∷ 100 ∷ 32 ∷ 101 ∷ 32 ∷ []

abbrev received : List (List ℕ)
received = (101 ∷ []) ∷ (97 ∷ []) ∷ (98 ∷ 99 ∷ []) ∷ []

first_reader : read without_spaces 0 4 text ≡ (97 ∷ []) ∷ (98 ∷ 99 ∷ []) ∷ []
unfolding read read_loop pieces pieces_from send_word without_spaces
first_reader = refl

second_reader : read without_spaces 5 4 text ≡ (101 ∷ []) ∷ []
unfolding read read_loop pieces pieces_from send_word without_spaces
second_reader = refl

order : Interleaving (sent_by without_spaces 4 text 0) (sent_by without_spaces 4 text 1) received
unfolding sent_by current read read_loop pieces pieces_from send_word without_spaces
order = from_second (101 ∷ []) (from_first (97 ∷ []) (from_first (98 ∷ 99 ∷ []) closed))

lost : gap without_spaces 4 text ≡ (100 ∷ []) ∷ []
unfolding gap is_space first_word pieces pieces_from send_word without_spaces
lost = refl

counts-file_example :
    value (lookup (100 ∷ []) (tally received [])) + count (100 ∷ []) (gap without_spaces 4 text)
    ≡ count (100 ∷ []) (all_words without_spaces (pieces text))
counts-file_example = counts-file without_spaces 4 text (100 ∷ []) 0 1 refl refl (omega arith) order
