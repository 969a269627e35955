-- ===== src/Stun/Send/Answers.antt =====
-- What `send` of p2p/go-stun/stun/net.go returns.
use Prim.Native.String.{String}
use go_util.Prelude.{
  ℕ, zero, suc, ◌≤◌, ◌≡◌, ◌≢◌, refl, sym, ◌∙◌, Bool, true, false, Option, none, some, List, [], ◌∷◌,
  length, All, ok, err, panic, stuck, arith, Bool-cases, inl, inr, ◌==◌,
}
use go_util.Stun.Library.{Library, UdpAddr, Go}
use go_util.Stun.Packet.{Packet, bytes}
use go_util.Stun.Packet.Parse.{new_packet_from_bytes}
use go_util.Stun.Packet.Total.{IsParsed, new_packet_from_bytes-IsParsed}
use go_util.Stun.Response.{Response, new_response}
use go_util.Stun.Response.Laws.{new_response-Ends, new_response-packet}
use go_util.Stun.Network.{
  Net, Sent, ReadResult, WriteResult, written, write_error, datagram, timed_out, read_error,
  bind_cases, write_with, write_to, deadline_with, set_read_deadline,
}
use go_util.Stun.Send.{
  bytes_equal, with_sender, received, read_loop, wait_answer, check, next_timeout, send_loop, send,
}

-- A datagram whose length a UDP header can say, less three bytes. (The client's buffer has 1024.)
abbrev pub Fits : ReadResult → Type 0
Fits (datagram packet_bytes raddr) = length packet_bytes.content ≤ 65532
Fits timed_out = Unit
Fits (read_error e) = Unit

-- A response holds a packet with the request's transaction id, and no loop is endless.
abbrev pub IsAnswer : List ℕ → Go (Option Response) → Type 0
IsAnswer trans_id (ok none) = Unit
IsAnswer trans_id (ok (some resp)) = (p : Packet) × (resp.packet ≡ some p) × (p.trans_id ≡ trans_id)
IsAnswer trans_id (err e) = Unit
IsAnswer trans_id panic = Unit
IsAnswer trans_id stuck = ⊥

bytes_equal→eq : (xs ys : List ℕ) → bytes_equal xs ys ≡ true → xs ≡ ys
unfolding bytes_equal
bytes_equal→eq [] [] e = refl
bytes_equal→eq [] (y ∷ ys) e = cc
bytes_equal→eq (x ∷ xs) [] e = cc
bytes_equal→eq (x ∷ xs) (y ∷ ys) e = ground (arith, bytes_equal→eq xs ys)

module _ (lib : Library) (trans_id : List ℕ) where
  -- What a wait leaves behind: its answer, and datagrams that fit.
  Waited : Go (Option Response) × List ReadResult → Type 0
  Waited r = IsAnswer trans_id r.0 × All Fits r.1

  with_sender-IsAnswer :
      (local raddr : String) (p : Packet) (r : Go Response)
      → new_response lib (some p) local ≡ r
      → p.trans_id ≡ trans_id
      → IsAnswer trans_id (with_sender lib raddr r)
  unfolding with_sender
  with_sender-IsAnswer local raddr p (ok resp) e same =
      (p, new_response-packet lib p local resp e, same)
  with_sender-IsAnswer local raddr p (err x) e same = tt
  with_sender-IsAnswer local raddr p panic e same = tt
  with_sender-IsAnswer local raddr p stuck e same = (new_response-Ends lib p local).not_stuck e

  received-Waited :
      (local raddr : String) (rest : List ReadResult)
      (skip : Go (Option Response) × List ReadResult) (parsed : Go Packet)
      → IsParsed parsed
      → All Fits rest
      → Waited skip
      → Waited (received lib local trans_id raddr rest skip parsed)
  unfolding received Waited
  received-Waited local raddr rest skip (ok p) h fits waited =
      elim (Bool-cases (bytes_equal trans_id p.trans_id)) [
        | inl same ↦ rw same (
          with_sender-IsAnswer local raddr p _ refl (sym (bytes_equal→eq trans_id p.trans_id same)),
          fits,
        )
        | inr other ↦ rw other waited
      ]
  received-Waited local raddr rest skip (err e) h fits waited = (tt, fits)
  received-Waited local raddr rest skip panic h fits waited = (tt, fits)
  received-Waited local raddr rest skip stuck h fits waited = absurd h

  read_loop-Waited :
      (local : String) (reads : List ReadResult)
      → All Fits reads
      → Waited (read_loop lib local trans_id reads)
  unfolding read_loop Waited
  read_loop-Waited local [] fits = (tt, tt)
  read_loop-Waited local (timed_out ∷ rest) fits = (tt, fits.1)
  read_loop-Waited local (read_error e ∷ rest) fits = (tt, fits.1)
  read_loop-Waited local (datagram packet_bytes raddr ∷ rest) fits =
      received-Waited local raddr rest _ (new_packet_from_bytes packet_bytes)
        (new_packet_from_bytes-IsParsed packet_bytes fits.0) fits.1
        (read_loop-Waited local rest fits.1)

-- A step of the outer loop before the wait: it ends, and leaves what is still to be read.
record Keeps {ℓ} {A : Type ℓ} (net : Net) (r : Go A × Net) : Type ℓ where
  never_stuck : r.0 ≢ stuck
  same_reads : r.1.reads ≡ net.reads

write_with-Keeps :
    (ws : List WriteResult) (content : List ℕ) (net : Net) → Keeps net (write_with ws content net)
unfolding write_with
write_with-Keeps [] content net = record { never_stuck = λ e. cc; same_reads = refl }
write_with-Keeps (written n ∷ rest) content net = record {
  never_stuck = λ e. cc;
  same_reads = refl;
}
write_with-Keeps (write_error x ∷ rest) content net = record {
  never_stuck = λ e. cc;
  same_reads = refl;
}

check-Keeps : (b : Bool) (net : Net) → Keeps net (check b net)
unfolding check
check-Keeps true net = record { never_stuck = λ e. cc; same_reads = refl }
check-Keeps false net = record { never_stuck = λ e. cc; same_reads = refl }

deadline_with-Keeps :
    (ds : List (Option ℕ)) (entry : Sent) (net : Net) → Keeps net (deadline_with ds entry net)
unfolding deadline_with
deadline_with-Keeps [] entry net = record { never_stuck = λ e. cc; same_reads = refl }
deadline_with-Keeps (none ∷ rest) entry net = record { never_stuck = λ e. cc; same_reads = refl }
deadline_with-Keeps (some x ∷ rest) entry net = record { never_stuck = λ e. cc; same_reads = refl }

module _ (lib : Library) (pkt : Packet) (addr : Option UdpAddr) where
  P : Go (Option Response) × Net → Type 0
  P r = IsAnswer pkt.trans_id r.0

  ended :
      (r : Go (Option Response)) (net : Net)
      → ((o : Option Response) → r ≢ ok o)
      → r ≢ stuck
      → P (r, net)
  unfolding P
  ended (ok o) net ne h = absurd (ne o refl)
  ended (err e) net ne h = tt
  ended panic net ne h = tt
  ended stuck net ne h = h refl

  wait_answer_lem :
      (net : Net)
      → All Fits net.reads
      → IsAnswer pkt.trans_id (wait_answer lib pkt.trans_id net).0
        × All Fits (wait_answer lib pkt.trans_id net).1.reads
  unfolding wait_answer Waited
  wait_answer_lem net fits = read_loop-Waited lib pkt.trans_id net.local_addr net.reads fits

  send_loop-IsAnswer :
      (rounds timeout : ℕ) (net : Net)
      → All Fits net.reads
      → P (send_loop lib rounds timeout pkt addr net)
  unfolding send_loop
  send_loop-IsAnswer zero timeout net fits = unfold P in tt
  send_loop-IsAnswer (suc rounds) timeout net fits =
      bind_cases P (write_to (bytes pkt)) _ net
        (λ n _.
          bind_cases P (check (n == length (bytes pkt))) _ written_net
            (λ _ _.
              bind_cases P (set_read_deadline entry) _ (checked_net n)
                (λ _ _.
                  bind_cases P (wait_answer lib pkt.trans_id) _ (logged_net n)
                    (elim [
                      | none ↦ λ _. send_loop-IsAnswer rounds (next_timeout timeout) _ (waited n).1
                      | some resp ↦ λ e. unfold P in rw e at (waited n).0
                    ])
                    (λ r ne h. ended r _ ne (λ e. rw (h e) at (waited n).0)))
                (λ r ne h. ended r _ ne (λ e. (deadline_keeps n).never_stuck (h e))))
            (λ r ne h. ended r _ ne (λ e. (check_keeps n).never_stuck (h e))))
        (λ r ne h. ended r _ ne (λ e. write_keeps.never_stuck (h e)))
    where
      entry : Sent
      entry = record { content = bytes pkt; addr = addr; timeout = timeout }

      written_net : Net
      written_net = (write_to (bytes pkt) net).1

      write_keeps : Keeps net (write_to (bytes pkt) net)
      write_keeps = write_with-Keeps net.writes (bytes pkt) net

      checked_net : ℕ → Net
      checked_net n = (check (n == length (bytes pkt)) written_net).1

      check_keeps : (n : ℕ) → Keeps written_net (check (n == length (bytes pkt)) written_net)
      check_keeps n = check-Keeps _ written_net

      logged_net : ℕ → Net
      logged_net n = (set_read_deadline entry (checked_net n)).1

      deadline_keeps : (n : ℕ) → Keeps (checked_net n) (set_read_deadline entry (checked_net n))
      deadline_keeps n = deadline_with-Keeps _ entry (checked_net n)

      still : (n : ℕ) → (logged_net n).reads ≡ net.reads
      still n = (deadline_keeps n).same_reads ∙ (check_keeps n).same_reads ∙ write_keeps.same_reads

      waited :
          (n : ℕ)
          → IsAnswer pkt.trans_id (wait_answer lib pkt.trans_id (logged_net n)).0
            × All Fits (wait_answer lib pkt.trans_id (logged_net n)).1.reads
      waited n = wait_answer_lem (logged_net n) (rw (still n) fits)

  -- Whatever the connection brings in datagrams that fit, `send` ends, and a response that it
  -- returns carries the transaction id of the request.
  pub send-IsAnswer :
      (net : Net) → All Fits net.reads → IsAnswer pkt.trans_id (send lib pkt addr net).0
  unfolding send P
  send-IsAnswer net fits = send_loop-IsAnswer 9 100 net fits
