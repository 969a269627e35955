-- ===== src/Pipe/Ends.antt =====
-- What has come to an end in channel_pipe/pipe.go when a goroutine has.
use go_util.Prelude.{ℕ, ◌≡◌, ◌∙◌, none, some, Option, List, [], true}
use go_util.Pipe.Parts.{
  FilePath, Visit, ReaderItem, Report, Stage, Reading, awaiting, Merging, receiving, Pipe, sent,
  is_closed,
}
use go_util.Pipe.Honest.{Honest}

-- When a goroutine has returned without an error, what it reads from has ended and is empty.
pub record Ends {File Reader : Type 0} (d : Pipe File Reader) : Type 0 where
  pub scan_honest : Honest d.scan.status d.got_scan d.cancelled
  pub read_honest : Honest d.read.status d.got_read d.cancelled
  pub merge_honest : Honest d.merge.status d.got_merge d.cancelled
  pub scan_ended : sent d.scan.status ≡ some none → d.scan.at ≡ []
  pub read_ended :
      sent d.read.status ≡ some none
      → (d.read.at ≡ awaiting) × (d.paths ≡ []) × (is_closed d.scan.status ≡ true)
  pub merge_ended :
      sent d.merge.status ≡ some none
      → (r : Report) × (d.merge.at ≡ receiving r)
        × (d.result ≡ some r)
        × (d.readers ≡ [])
        × (is_closed d.read.status ≡ true)

module _ {File Reader : Type 0} where
  -- A change of one stage, with the channel that it reads from and the one that it sends to.
  pub with_scan :
      {d : Pipe File Reader} (scan : Stage (List Visit)) (paths : List FilePath)
      → Ends d
      → Honest scan.status d.got_scan d.cancelled
      → (sent scan.status ≡ some none → scan.at ≡ [])
      → (is_closed d.scan.status ≡ true → (is_closed scan.status ≡ true) × (paths ≡ d.paths))
      → Ends (record d { scan = scan; paths = paths })
  with_scan scan paths h honest ended kept = record {
    scan_honest = honest;
    read_honest = h.read_honest;
    merge_honest = h.merge_honest;
    scan_ended = ended;
    read_ended = λ x.
        let (at, none_left, shut) = h.read_ended x in
        let (shut2, same) = kept shut in (at, same ∙ none_left, shut2);
    merge_ended = h.merge_ended;
  }

  pub with_read :
      {d : Pipe File Reader} (read : Stage (Reading File Reader)) (paths : List FilePath)
      (readers : List (ReaderItem File Reader))
      → Ends d
      → Honest read.status d.got_read d.cancelled
      → (sent read.status ≡ some none
          → (read.at ≡ awaiting) × (paths ≡ []) × (is_closed d.scan.status ≡ true))
      → (is_closed d.read.status ≡ true → (is_closed read.status ≡ true) × (readers ≡ d.readers))
      → Ends (record d { read = read; paths = paths; readers = readers })
  with_read read paths readers h honest ended kept = record {
    scan_honest = h.scan_honest;
    read_honest = honest;
    merge_honest = h.merge_honest;
    scan_ended = h.scan_ended;
    read_ended = ended;
    merge_ended = λ x.
        let (r, at, result, none_left, shut) = h.merge_ended x in
        let (shut2, same) = kept shut in (r, at, result, same ∙ none_left, shut2);
  }

  pub with_merge :
      {d : Pipe File Reader} (merge : Stage Merging) (readers : List (ReaderItem File Reader))
      (result : Option Report) (writer : List ℕ) (merged : List FilePath)
      → Ends d
      → Honest merge.status d.got_merge d.cancelled
      → (sent merge.status ≡ some none
          → (r : Report) × (merge.at ≡ receiving r)
            × (result ≡ some r)
            × (readers ≡ [])
            × (is_closed d.read.status ≡ true))
      → Ends (record d {
        merge = merge;
        readers = readers;
        result = result;
        writer = writer;
        merged = merged;
      })
  with_merge merge readers result writer merged h honest ended = record {
    scan_honest = h.scan_honest;
    read_honest = h.read_honest;
    merge_honest = honest;
    scan_ended = h.scan_ended;
    read_ended = h.read_ended;
    merge_ended = ended;
  }
