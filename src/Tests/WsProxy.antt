-- ===== src/Tests/WsProxy.antt =====
-- Tests of websocket_proxy/server.go: a read of one byte, and a client that leaves.
use go_util.Prelude.{◌≤◌, ◌≡◌, refl, true, ℕ, List, [], ◌∷◌, ◌++◌, map, length, All, arith}
use go_util.WsProxy.Handler.{
  left, returned, Session, opened, buffer, buffer_size, goes_on, reads, writes, sees_done,
  receive_fails, loop_cancels, waited, Reach, start, by_reader, by_loop,
}
use go_util.WsProxy.Handler.Closing.{returned-left}
use go_util.WsProxy.Handler.Flow.{Reach-buffers}

abbrev with_read : Session
with_read = record opened { tcp_in = (7 ∷ []) ∷ []; ws_out = buffer (7 ∷ []) ∷ [] }

abbrev after_leaving : Session
after_leaving = record with_read { reader = left; loop = returned; cancelled = true }

read-reached : Reach with_read
unfolding opened
read-reached =
    by_reader (by_reader (by_reader start (goes_on refl refl)) (reads (7 ∷ []) refl (omega arith)))
      (writes (7 ∷ []) refl)

leaving-reached : Reach after_leaving
unfolding opened
leaving-reached =
    by_loop
      (by_reader (by_loop (by_loop read-reached (receive_fails refl)) (loop_cancels refl))
        (sees_done refl refl))
      (waited refl refl)

returned-left_example : after_leaving.reader ≡ left
returned-left_example = returned-left leaving-reached refl

Reach-buffers_example :
    (rest : List (List ℕ)) × (with_read.ws_out ++ rest ≡ map buffer with_read.tcp_in)
    × (length rest ≤ 1)
    × All (λ b. length (buffer b) ≡ buffer_size) with_read.tcp_in
Reach-buffers_example = Reach-buffers read-reached
