-- ===== src/Pipe/Able.antt =====
-- When Scan and Read of channel_pipe/pipe.go can move.
use go_util.Prelude.{
  ◌<◌, ◌≡◌, refl, ap, ◌∙◌, ◌⊎◌, inl, inr, Option, List, [], ◌∷◌, length, arith, true,
}
use go_util.Pipe.Parts.{
  FilePath, Error, Library, Visit, regular, other, failing, Stage, Status, running, returned,
  closed, Reading, awaiting, sending, unread, Pipe, is_closed,
}
use go_util.Pipe.Moves.{
  capacity, runs, ends, scan_other, scan_failing, scan_send, scan_done, scan_end, scan_close,
  read_path, read_end, read_send, read_done, Move, by_scan, by_read,
}
use go_util.Pipe.Runs.{Runs}

module _ {File Reader : Type 0} (lib : Library File Reader) where
  unfoldable pub Moving : Pipe File Reader → Type 0
  Moving d = (e : Pipe File Reader) × Move lib d e

  pub stage_runs :
      {S : Type 0} (stage : Stage S) (at : S)
      → stage.status ≡ running
      → stage.at ≡ at
      → stage ≡ runs at
  stage_runs stage at s a =
      ap (λ t. record { at = t; status = stage.status }) a
      ∙ ap (λ t. record { at = at; status = t }) s

  pub stage_ends :
      {S : Type 0} (stage : Stage S) (e : Option Error)
      → stage.status ≡ returned e
      → stage ≡ ends stage.at e
  stage_ends stage e s = ap (λ t. record { at = stage.at; status = t }) s

  -- Scan can move where there is room in paths or the context is cancelled.
  pub scan_moves :
      (d : Pipe File Reader)
      → d.scan.status ≡ running
      → (length d.paths < capacity) ⊎ (d.cancelled ≡ true)
      → Moving d
  unfolding Moving
  scan_moves d s free = on_visits d.scan.at refl
    where
      on_visits : (visits : List Visit) → d.scan.at ≡ visits → Moving d
      on_visits [] a = (_, by_scan (scan_end (stage_runs d.scan [] s a)))
      on_visits (other ∷ visits) a = (_, by_scan (scan_other visits (stage_runs d.scan _ s a)))
      on_visits (failing e ∷ visits) a =
          (_, by_scan (scan_failing e visits (stage_runs d.scan _ s a)))
      on_visits (regular path ∷ visits) a = elim free [
        | inl room ↦ (_, by_scan (scan_send path visits (stage_runs d.scan _ s a) room))
        | inr c ↦ (_, by_scan (scan_done path visits (stage_runs d.scan _ s a) c))
      ]

  -- Read, or Scan before it, can move where there is room in readers or the context is cancelled.
  pub read_moves :
      (d : Pipe File Reader)
      → Runs d
      → d.read.status ≡ running
      → (length d.readers < capacity) ⊎ (d.cancelled ≡ true)
      → Moving d
  unfolding Moving is_closed
  read_moves d h s free = on_at d.read.at refl
    where
      on_scan : d.read.at ≡ awaiting → d.paths ≡ [] → (st : Status) → d.scan.status ≡ st → Moving d
      on_scan a q running e =
          let room : length d.paths < capacity = rw q (omega arith) in scan_moves d e (inl room)
      on_scan a q (returned x) e = (_, by_scan (scan_close d.scan.at x (stage_ends d.scan x e)))
      on_scan a q (closed x) e =
          (_, by_read (read_end (stage_runs d.read awaiting s a) q (ap is_closed e)))

      on_paths : d.read.at ≡ awaiting → (paths : List FilePath) → d.paths ≡ paths → Moving d
      on_paths a [] q = on_scan a q d.scan.status refl
      on_paths a (path ∷ rest) q =
          (_, by_read (read_path path rest (stage_runs d.read awaiting s a) q))

      on_at : (at : Reading File Reader) → d.read.at ≡ at → Moving d
      on_at awaiting a = on_paths a d.paths refl
      on_at (unread path) a = absurd (h.reads path s a)
      on_at (sending item) a = elim free [
        | inl room ↦ (_, by_read (read_send item (stage_runs d.read _ s a) room))
        | inr c ↦ (_, by_read (read_done item (stage_runs d.read _ s a) c))
      ]
