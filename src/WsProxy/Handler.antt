-- ===== src/WsProxy/Handler.antt =====
-- handler of websocket_proxy/server.go after both connections are made: the goroutine that reads the
-- TCP connection, and the loop that reads the websocket. A call on a connection or on the context
-- is a step; what the connections bring, and which calls fail, is not determined.
pub mod Closing
pub mod Flow
use go_util.Prelude.{ℕ, ◌-◌, ◌≤◌, ◌≡◌, Bool, true, false, List, [], ◌∷◌, ◌++◌, length, replicate}

-- Where the goroutine is.
pub data Reader : Type 0 where
  checking : Reader  -- before the select
  reading : Reader
  writing : List ℕ → Reader  -- before WriteMessage, with what Read brought
  cancelling : Reader
  left : Reader

-- Where the loop of handler is.
pub data Loop : Type 0 where
  receiving : Loop
  copying : List ℕ → Loop
  selecting : Loop
  leaving : Loop  -- before cancel
  waiting : Loop  -- before wg.Wait
  returned : Loop

-- Both, the context, and what came in and went out so far.
pub record Session : Type 0 where
  pub reader : Reader
  pub loop : Loop
  pub cancelled : Bool
  pub tcp_in : List (List ℕ)
  pub ws_out : List (List ℕ)
  pub ws_in : List (List ℕ)
  pub tcp_out : List ℕ

unfoldable pub opened : Session
opened = record {
  reader = checking;
  loop = receiving;
  cancelled = false;
  tcp_in = [];
  ws_out = [];
  ws_in = [];
  tcp_out = [];
}

abbrev pub buffer_size : ℕ
buffer_size = 1024

-- The whole buffer, of which Read filled the front.
unfoldable pub buffer : List ℕ → List ℕ
buffer bytes = bytes ++ replicate (buffer_size - length bytes) 0

pub data ReaderMove : Session → Session → Type 0 where
  sees_done :
      {s : Session}
      → s.reader ≡ checking
      → s.cancelled ≡ true
      → ReaderMove s (record s { reader = left })
  goes_on :
      {s : Session}
      → s.reader ≡ checking
      → s.cancelled ≡ false
      → ReaderMove s (record s { reader = reading })
  reads :
      {s : Session} (bytes : List ℕ)
      → s.reader ≡ reading
      → length bytes ≤ buffer_size
      → ReaderMove s (record s { reader = writing bytes; tcp_in = s.tcp_in ++ bytes ∷ [] })
  times_out : {s : Session} → s.reader ≡ reading → ReaderMove s (record s { reader = checking })
  read_fails : {s : Session} → s.reader ≡ reading → ReaderMove s (record s { reader = cancelling })
  writes :
      {s : Session} (bytes : List ℕ)
      → s.reader ≡ writing bytes
      → ReaderMove s (record s { reader = checking; ws_out = s.ws_out ++ buffer bytes ∷ [] })
  write_fails :
      {s : Session} (bytes : List ℕ)
      → s.reader ≡ writing bytes
      → ReaderMove s (record s { reader = cancelling })
  reader_cancels :
      {s : Session}
      → s.reader ≡ cancelling
      → ReaderMove s (record s { reader = left; cancelled = true })

pub data LoopMove : Session → Session → Type 0 where
  receives :
      {s : Session} (message : List ℕ)
      → s.loop ≡ receiving
      → LoopMove s (record s { loop = copying message; ws_in = s.ws_in ++ message ∷ [] })
  receive_fails : {s : Session} → s.loop ≡ receiving → LoopMove s (record s { loop = leaving })
  -- io.Copy, whose error is not looked at.
  copies :
      {s : Session} (copied lost : List ℕ)
      → s.loop ≡ copying (copied ++ lost)
      → LoopMove s (record s { loop = selecting; tcp_out = s.tcp_out ++ copied })
  returns :
      {s : Session}
      → s.loop ≡ selecting
      → s.cancelled ≡ true
      → LoopMove s (record s { loop = returned })
  continues :
      {s : Session}
      → s.loop ≡ selecting
      → s.cancelled ≡ false
      → LoopMove s (record s { loop = receiving })
  loop_cancels :
      {s : Session} → s.loop ≡ leaving → LoopMove s (record s { loop = waiting; cancelled = true })
  waited :
      {s : Session} → s.loop ≡ waiting → s.reader ≡ left → LoopMove s (record s { loop = returned })

pub data Reach : Session → Type 0 where
  start : Reach opened
  by_reader : {s t : Session} → Reach s → ReaderMove s t → Reach t
  by_loop : {s t : Session} → Reach s → LoopMove s t → Reach t
