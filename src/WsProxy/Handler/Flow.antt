-- ===== src/WsProxy/Handler/Flow.antt =====
-- What the websocket is sent.
use go_util.Prelude.{
  ◌-◌, ◌≡◌, ◌≤◌, refl, sym, ap, ◌∙◌, ℕ, List, [], ◌∷◌, ◌++◌, append-nil, map, length, arith, All,
  All-append, length-append, length-replicate, replicate,
}
use go_util.WsProxy.Handler.{
  Reader, checking, reading, writing, cancelling, left, Session, opened, buffer, buffer_size,
  ReaderMove, sees_done, goes_on, reads, times_out, read_fails, writes, write_fails, reader_cancels,
  LoopMove, receives, receive_fails, copies, returns, continues, loop_cancels, waited, Reach, start,
  by_reader, by_loop,
}

map-append : (f : List ℕ → List ℕ) (xs ys : List (List ℕ)) → map f (xs ++ ys) ≡ map f xs ++ map f ys
map-append f [] ys = refl
map-append f (x ∷ xs) ys = ap (λ t. f x ∷ t) (map-append f xs ys)

length-buffer : (bytes : List ℕ) → length bytes ≤ buffer_size → length (buffer bytes) ≡ buffer_size
unfolding buffer
length-buffer bytes fits =
    let zeros = replicate (buffer_size - length bytes) 0 in
    let whole = length-append bytes zeros in
    let rest = length-replicate {A = ℕ} (buffer_size - length bytes) 0 in
    omega (arith, fits, whole, rest)

-- What is read but not sent: nothing in the loop but before a write, then one read, and at the end
-- at most the one that could not be sent.
Held : Reader → List (List ℕ) → Type 0
Held checking rest = rest ≡ []
Held reading rest = rest ≡ []
Held (writing bytes) rest = rest ≡ buffer bytes ∷ []
Held cancelling rest = length rest ≤ 1
Held left rest = length rest ≤ 1

record Sent (s : Session) : Type 0 where
  rest : List (List ℕ)
  split : s.ws_out ++ rest ≡ map buffer s.tcp_in
  held : Held s.reader rest
  full : All (λ b. length (buffer b) ≡ buffer_size) s.tcp_in

ReaderMove-Sent : {s t : Session} → Sent s → ReaderMove s t → Sent t
unfolding Held
ReaderMove-Sent h (sees_done at d) =
    let none = rw at at h.held in
    record { rest = h.rest; split = h.split; held = omega (arith, ap length none); full = h.full }
ReaderMove-Sent h (goes_on at d) = record {
  rest = h.rest;
  split = h.split;
  held = rw at at h.held;
  full = h.full;
}
ReaderMove-Sent {s} h (reads bytes at fits) =
    let none : h.rest ≡ [] = rw at at h.held in
    record {
      rest = buffer bytes ∷ [];
      split =
          ap (λ t. t ++ (buffer bytes ∷ []))
            (sym (append-nil s.ws_out) ∙ ap (λ t. s.ws_out ++ t) (sym none) ∙ h.split)
          ∙ sym (map-append buffer s.tcp_in (bytes ∷ []));
      held = refl;
      full =
          All-append (λ b. length (buffer b) ≡ buffer_size) s.tcp_in (bytes ∷ []) h.full
            (length-buffer bytes fits, tt);
    }
ReaderMove-Sent h (times_out at) = record {
  rest = h.rest;
  split = h.split;
  held = rw at at h.held;
  full = h.full;
}
ReaderMove-Sent h (read_fails at) =
    let none : h.rest ≡ [] = rw at at h.held in
    let len : length h.rest ≡ 0 = ap length none in
    record { rest = h.rest; split = h.split; held = omega (arith, len); full = h.full }
ReaderMove-Sent {s} h (writes bytes at) =
    let one : h.rest ≡ buffer bytes ∷ [] = rw at at h.held in
    record {
      rest = [];
      split =
          append-nil (s.ws_out ++ (buffer bytes ∷ []))
          ∙ ap (λ t. s.ws_out ++ t) (sym one)
          ∙ h.split;
      held = refl;
      full = h.full;
    }
ReaderMove-Sent h (write_fails bytes at) =
    let one : h.rest ≡ buffer bytes ∷ [] = rw at at h.held in
    let len : length h.rest ≡ 1 = ap length one in
    record { rest = h.rest; split = h.split; held = omega (arith, len); full = h.full }
ReaderMove-Sent h (reader_cancels at) = record {
  rest = h.rest;
  split = h.split;
  held = rw at at h.held;
  full = h.full;
}

LoopMove-Sent : {s t : Session} → Sent s → LoopMove s t → Sent t
LoopMove-Sent h (receives message at) = record {
  rest = h.rest;
  split = h.split;
  held = h.held;
  full = h.full;
}
LoopMove-Sent h (receive_fails at) = record {
  rest = h.rest;
  split = h.split;
  held = h.held;
  full = h.full;
}
LoopMove-Sent h (copies copied lost at) = record {
  rest = h.rest;
  split = h.split;
  held = h.held;
  full = h.full;
}
LoopMove-Sent h (returns at d) = record {
  rest = h.rest;
  split = h.split;
  held = h.held;
  full = h.full;
}
LoopMove-Sent h (continues at d) = record {
  rest = h.rest;
  split = h.split;
  held = h.held;
  full = h.full;
}
LoopMove-Sent h (loop_cancels at) = record {
  rest = h.rest;
  split = h.split;
  held = h.held;
  full = h.full;
}
LoopMove-Sent h (waited at l) = record {
  rest = h.rest;
  split = h.split;
  held = h.held;
  full = h.full;
}

Reach-Sent : {s : Session} → Reach s → Sent s
unfolding opened Held
Reach-Sent start = record { rest = []; split = refl; held = refl; full = tt }
Reach-Sent (by_reader r m) = ReaderMove-Sent (Reach-Sent r) m
Reach-Sent (by_loop r m) = LoopMove-Sent (Reach-Sent r) m

at_most_one : (r : Reader) (rest : List (List ℕ)) → Held r rest → length rest ≤ 1
unfolding Held
at_most_one checking rest h = let len : length rest ≡ 0 = ap length h in omega (arith, len)
at_most_one reading rest h = let len : length rest ≡ 0 = ap length h in omega (arith, len)
at_most_one (writing bytes) rest h = let len : length rest ≡ 1 = ap length h in omega (arith, len)
at_most_one cancelling rest h = h
at_most_one left rest h = h

-- For each read of the TCP connection the websocket is sent the whole buffer of 1024 bytes, however
-- few the read brought, in order, but for the last, which is not sent before its write, nor where it
-- fails.
pub Reach-buffers :
    {s : Session}
    → Reach s
    → (rest : List (List ℕ)) × (s.ws_out ++ rest ≡ map buffer s.tcp_in)
      × (length rest ≤ 1)
      × All (λ b. length (buffer b) ≡ buffer_size) s.tcp_in
Reach-buffers {s} r =
    let h = Reach-Sent r in (h.rest, h.split, at_most_one s.reader h.rest h.held, h.full)
