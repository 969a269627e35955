-- ===== src/Pipe/Parts.antt =====
-- The values of channel_pipe/pipe.go and the state of a run: ReaderItem, Report, doRead, doMerge, what
-- Wait returns and what MergeLogs does with it.
use go_util.Prelude.{
  ℕ, suc, ◌+◌, ◌-◌, Bool, true, false, Option, none, some, List, [], ◌∷◌, length, drop,
  if◌then◌else◌,
}
use go_util.Prelude.Dict.{same_bytes}

abbrev pub FilePath : Type 0
FilePath = List ℕ

-- An error of the system by its number, and context.Canceled, which is what ctx.Err gives.
pub data Error : Type 0 where
  real : ℕ → Error
  canceled : Error

pub data Result (A : Type 0) : Type 0 where
  ok : A → Result A
  err : ℕ → Result A

-- os.Open, gzip.NewReader, and io.Copy from a reader: the bytes that are written, and an error.
pub record Library (File Reader : Type 0) : Type 0 where
  pub open_file : FilePath → Result File
  pub gzip_reader : File → Result Reader
  pub plain_reader : File → Reader
  pub copy : Reader → List ℕ × Option ℕ

-- One call of the function that Scan gives to filepath.Walk: with a regular file, with another one,
-- or with an error.
pub data Visit : Type 0 where
  regular : FilePath → Visit
  other : Visit
  failing : ℕ → Visit

-- `path` is the name of the file.
pub record ReaderItem (File Reader : Type 0) : Type 0 where
  pub reader : Reader
  pub file : File
  pub path : FilePath

pub record Report : Type 0 where
  pub total_bytes : ℕ
  pub file_nums : ℕ

-- ".gz"
abbrev gz : List ℕ
gz = 46 ∷ 103 ∷ 122 ∷ []

unfoldable pub has_suffix : List ℕ → List ℕ → Bool
has_suffix text suffix = same_bytes (drop (length text - length suffix) text) suffix

module _ {File Reader : Type 0} (lib : Library File Reader) where
  unfoldable pub with_reader : FilePath → File → Result Reader → Result (ReaderItem File Reader)
  with_reader path file (err e) = err e
  with_reader path file (ok reader) = ok (record { reader = reader; file = file; path = path })

  unfoldable pub with_file : FilePath → Result File → Result (ReaderItem File Reader)
  unfolding with_reader
  with_file path (err e) = err e
  with_file path (ok file) =
      with_reader path file
        (if has_suffix path gz then lib.gzip_reader file else ok (lib.plain_reader file))

  unfoldable pub do_read : FilePath → Result (ReaderItem File Reader)
  unfolding with_file
  do_read path = with_file path (lib.open_file path)

-- How far a goroutine is: it runs, its function has returned into errc, or its channel is closed too.
pub data Status : Type 0 where
  running : Status
  returned closed : Option Error → Status

-- A goroutine that has returned keeps where it was.
pub record Stage (S : Type 0) : Type 0 where
  pub at : S
  pub status : Status

-- At the receive of a path, at the select with an item, and at a path that could not be read.
pub data Reading (File Reader : Type 0) : Type 0 where
  awaiting : Reading File Reader
  sending : ReaderItem File Reader → Reading File Reader
  unread : FilePath → Reading File Reader

-- At the receive of an item, at the select after it was merged, and at an item whose copy failed after
-- some bytes.
pub data Merging : Type 0 where
  receiving checking : Report → Merging
  unmerged : FilePath → List ℕ → Report → Merging

-- The channels are the lists of what they hold. Of Wait it is kept which errors it has received.
-- `merged` is the history of what doMerge has done.
pub record Pipe (File Reader : Type 0) : Type 0 where
  pub scan : Stage (List Visit)
  pub paths : List FilePath
  pub read : Stage (Reading File Reader)
  pub readers : List (ReaderItem File Reader)
  pub merge : Stage Merging
  pub result : Option Report
  pub writer : List ℕ
  pub cancelled : Bool
  pub got_scan : Bool
  pub got_read : Bool
  pub got_merge : Bool
  pub merged : List FilePath

-- MergeLogs up to Wait, for the calls that Walk will make.
unfoldable pub start : {File Reader : Type 0} → List Visit → Pipe File Reader
start visits = record {
  scan = record { at = visits; status = running };
  paths = [];
  read = record { at = awaiting; status = running };
  readers = [];
  merge = record { at = receiving (record { total_bytes = 0; file_nums = 0 }); status = running };
  result = none;
  writer = [];
  cancelled = false;
  got_scan = false;
  got_read = false;
  got_merge = false;
  merged = [];
}

-- What a goroutine has sent to its errc.
unfoldable pub sent : Status → Option (Option Error)
sent running = none
sent (returned e) = some e
sent (closed e) = some e

unfoldable pub is_closed : Status → Bool
is_closed running = false
is_closed (returned e) = false
is_closed (closed e) = true

-- doMerge of one item, after what was written and reported: none is an error of io.Copy.
unfoldable pub add : Report → List ℕ → Report
add r bytes = record { total_bytes = r.total_bytes + length bytes; file_nums = suc r.file_nums }

-- err != nil && err != ctx.Err()
unfoldable pub is_failure : Bool → Option Error → Bool
is_failure cancelled none = false
is_failure cancelled (some (real e)) = true
is_failure true (some canceled) = false
is_failure false (some canceled) = true

-- The loop over errs at the end of Wait, and errs[0] after it.
unfoldable pub first_failure : Bool → List (Option Error) → Option Error → Option Error
first_failure cancelled [] first = first
first_failure cancelled (e ∷ errs) first =
    let later = first_failure cancelled errs first in if is_failure cancelled e then e else later

-- What MergeLogs returns: an error; what the channel of the report gives, which is nil where it was
-- closed without one.
pub data Returned : Type 0 where
  failed : Error → Returned
  reported : Report → Returned
  nil_report : Returned

-- The receive of the report; `none` is to wait for it.
unfoldable pub receive_report : Option Report → Status → Option Returned
receive_report (some r) status = some (reported r)
receive_report none running = none
receive_report none (returned e) = none
receive_report none (closed e) = some nil_report

unfoldable pub after_wait : Option Error → Option Report → Status → Option Returned
unfolding receive_report
after_wait (some e) result status = some (failed e)
after_wait none result status = receive_report result status

-- The error that Wait has received from a goroutine.
unfoldable pub got : Bool → Status → Option (Option Error)
unfolding sent
got false status = none
got true status = sent status

unfoldable pub with_errs :
    {File Reader : Type 0}
    → Pipe File Reader
    → Option (Option Error)
    → Option (Option Error)
    → Option (Option Error)
    → Option Returned
unfolding after_wait first_failure
with_errs d (some e0) (some e1) (some e2) =
    after_wait (first_failure d.cancelled (e0 ∷ e1 ∷ e2 ∷ []) e0) d.result d.merge.status
with_errs d _ _ _ = none

-- What MergeLogs has returned, or `none` where it has not.
unfoldable pub merge_logs : {File Reader : Type 0} → Pipe File Reader → Option Returned
unfolding with_errs got
merge_logs d =
    with_errs d (got d.got_scan d.scan.status) (got d.got_read d.read.status)
      (got d.got_merge d.merge.status)
