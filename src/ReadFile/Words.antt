-- ===== src/ReadFile/Words.antt =====
-- read of multithreadReadfile/multiThreadRead.go. The file is its bytes, and strings.TrimSpace an
-- argument.
pub mod Spelling
pub mod Chunks
use go_util.Prelude.{ℕ, ◌+◌, List, [], ◌∷◌, ◌++◌, length, drop, ltb, ◌==◌, if◌then◌else◌}

-- What the calls of ReadBytes(' ') bring until io.EOF: the bytes up to a space and the space. Bytes
-- behind the last space come with io.EOF and are not looked at. `current` is what a call has read.
unfoldable pub pieces_from : List ℕ → List ℕ → List (List ℕ)
pieces_from current [] = []
pieces_from current (c ∷ rest) =
    let ended = pieces_from [] rest in
    let later = pieces_from (current ++ c ∷ []) rest in
    if c == 32 then (current ++ c ∷ []) ∷ ended else later

unfoldable pub pieces : List ℕ → List (List ℕ)
pieces file = pieces_from [] file

module _ (trim_space : List ℕ → List ℕ) where
  -- A word that is not empty is sent.
  not_empty : List ℕ → List (List ℕ)
  not_empty [] = []
  not_empty (c ∷ s) = (c ∷ s) ∷ []

  unfoldable pub send_word : List ℕ → List (List ℕ)
  unfolding not_empty
  send_word piece = not_empty (trim_space piece)

  -- The loop, with cummulativeSize.
  unfoldable pub read_loop : ℕ → ℕ → List (List ℕ) → List (List ℕ)
  read_loop limit size [] = []
  read_loop limit size (b ∷ rest) =
      let later = read_loop limit (size + length b) rest in
      if ltb limit size then [] else send_word b ++ later

  -- Without a space to skip to, read returns.
  after_skip : ℕ → List (List ℕ) → List (List ℕ)
  after_skip limit [] = []
  after_skip limit (skipped ∷ rest) = read_loop limit 0 rest

  -- The words that read sends, in order.
  unfoldable pub read : ℕ → ℕ → List ℕ → List (List ℕ)
  unfolding after_skip
  read offset limit file =
      let bytes = pieces (drop offset file) in
      if offset == 0 then read_loop limit 0 bytes else after_skip limit bytes
