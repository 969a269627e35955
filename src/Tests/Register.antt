-- ===== src/Tests/Register.antt =====
-- Tests of grpc-lb/etcdv3/register.go: one server that comes and goes.
use go_util.Prelude.{ℕ, ◌+◌, ◌≤◌, ◌≡◌, refl, true, ◌⊎◌, none, List, [], ◌∷◌, length, arith}
use go_util.Prelude.Dict.{bytes_key, lookup}
use go_util.Resolver.Register.{
  Answers, Registry, nothing_registered, register, stored, removed, entry_of, key_of, deletes, Move,
  request, deletion, reply, request_taken, Reach, start, registers, calls, moved, Moves, none_left,
  and_move,
}
use go_util.Resolver.Register.Seen.{listed_addresses}
use go_util.Resolver.Register.Listed.{unregister-unlisted}
use go_util.Resolver.Register.Progress.{work, Settled, Moves-settle}

abbrev all_well : Answers
all_well = record { connects = true; grants = true; puts = true; keeps_alive = true }

-- "a" at "h:1"
abbrev service : List ℕ
service = 97 ∷ []

abbrev address : List ℕ
address = 104 ∷ 58 ∷ 49 ∷ []

abbrev with_server : Registry
with_server = (register all_well service address nothing_registered).0

abbrev with_call : Registry
with_call = record with_server { asking = 1 }

abbrev with_request : Registry
with_request = record with_call {
  asking = 0;
  asked = 1;
  waiting = [];
  deleting = entry_of service address ∷ [];
}

abbrev with_deletion : Registry
with_deletion =
    deletes true (entry_of service address) (record with_request { deleting = []; answering = 1 })

abbrev with_reply : Registry
with_reply = record with_deletion { answering = 0; asked = 0; ended = 1; returned = 1 }

call-reached : Reach with_call
unfolding register stored nothing_registered
call-reached = calls (registers all_well service address start)

three_moves : Moves 3 with_call with_reply
unfolding register stored nothing_registered deletes removed
three_moves =
    and_move
      (and_move (and_move none_left (request [] [] (entry_of service address) 0 refl refl))
        (deletion [] [] (entry_of service address) true refl))
      (reply 0 0 refl refl)

reply-reached : Reach with_reply
unfolding register stored nothing_registered deletes removed
reply-reached =
    moved
      (moved (moved call-reached (request [] [] (entry_of service address) 0 refl refl))
        (deletion [] [] (entry_of service address) true refl))
      (reply 0 0 refl refl)

one_server :
    length with_reply.waiting + length with_reply.deleting + with_reply.answering + with_reply.ended
    ≤ 1
unfolding register stored nothing_registered deletes removed
one_server = omega arith

one_call : with_reply.asking + with_reply.asked + with_reply.returned ≤ 1
unfolding deletes removed
one_call = omega arith

nothing_left : with_reply.left ≡ []
unfolding register stored nothing_registered deletes removed
nothing_left = refl

unregister-unlisted_example :
    lookup (key_of service address) (listed_addresses service with_reply.events) ≡ none
unregister-unlisted_example =
    unregister-unlisted service address reply-reached one_server one_call nothing_left refl

Moves-settle_example :
    (3 + work with_reply ≤ work with_call)
    × (Settled with_reply ⊎ ((u : Registry) × Move with_reply u))
Moves-settle_example = Moves-settle call-reached three_moves

-- A second call takes the request of the first, and returns though nothing was deleted.
taken : Moves 2 (record with_call { asking = 2 }) (record with_request { returned = 1 })
unfolding register stored nothing_registered
taken =
    and_move (and_move none_left (request [] [] (entry_of service address) 1 refl refl))
      (request_taken 0 0 refl refl)
