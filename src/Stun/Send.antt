-- ===== src/Stun/Send.antt =====
-- p2p/go-stun/stun/net.go and tests.go: building a binding request, sending it with retransmissions
-- and waiting for the answer.
pub mod Requests
pub mod Schedule
pub mod Answers
use Prim.Native.String.{String}
use go_util.Prelude.{
  ℕ, zero, suc, ◌+◌, ◌-◌, ◌*◌, ◌==◌, Bool, true, false, ◌&&◌, ◌||◌, Option, none, some, List, [],
  ◌∷◌, length, ltb, if◌then◌else◌, ok, err, panic, stuck,
}
use go_util.Wire.Slices.{u16}
use go_util.Stun.Consts.{type_binding_request}
use go_util.Stun.Library.{Library, UdpAddr, Go, sending, library}
use go_util.Stun.Host.{new_host_from_str}
use go_util.Stun.Attribute.{new_software_attribute, new_change_req_attribute}
use go_util.Stun.Packet.{Packet, new_packet, add_attribute, bytes, new_fingerprint_attribute}
use go_util.Stun.Packet.Parse.{new_packet_from_bytes}
use go_util.Stun.Response.{Response, new_response}
use go_util.Stun.Network.{
  Net, Run, Sent, ReadResult, datagram, timed_out, read_error, ◌>>=◌, lift, rand_read, write_to,
  set_read_deadline,
}

abbrev pub num_retransmit : ℕ
num_retransmit = 9

abbrev pub default_timeout : ℕ
default_timeout = 100

abbrev pub max_timeout : ℕ
max_timeout = 1600

-- bytes.Equal
unfoldable pub bytes_equal : List ℕ → List ℕ → Bool
bytes_equal [] [] = true
bytes_equal [] (y ∷ ys) = false
bytes_equal (x ∷ xs) [] = false
bytes_equal (x ∷ xs) (y ∷ ys) = x == y && bytes_equal xs ys

-- The CHANGE-REQUEST attribute, where one of the two is asked for.
add_change_request : Bool → Bool → Packet → Packet
add_change_request change_ip change_port pkt =
    if change_ip || change_port
    then add_attribute pkt (new_change_req_attribute change_ip change_port)
    else pkt

-- A check that fails returns its error.
check : Bool → Run Net (Unit {0})
check true = lift (ok tt)
check false = lift (err sending)

next_timeout : ℕ → ℕ
next_timeout timeout = if ltb timeout max_timeout then timeout * 2 else timeout

module _ (lib : Library) where
  -- The fingerprint is taken over the packet with its own 8 bytes counted in.
  add_fingerprint : Packet → Packet
  add_fingerprint pkt =
      let counted = record pkt { size = u16 (pkt.size + 8) } in
      let restored = record counted { size = u16 (counted.size + 65536 - 8) } in
      add_attribute restored (new_fingerprint_attribute lib counted)

  -- What sendBindingReq makes of a new packet.
  pub binding_request : List ℕ → Bool → Bool → Packet → Packet
  binding_request software_name change_ip change_port pkt =
      let typed = record pkt { types = type_binding_request } in
      let named = add_attribute typed (new_software_attribute software_name) in
      add_fingerprint (add_change_request change_ip change_port named)

  -- The answer: newResponse, with the sender's address put in.
  with_sender : String → Go Response → Go (Option Response)
  with_sender raddr (ok resp) =
      ok (some (record resp { server_addr = new_host_from_str lib raddr }))
  with_sender raddr (err e) = err e
  with_sender raddr panic = panic
  with_sender raddr stuck = stuck

  -- What a parsed datagram leads to; `skip` is the rest of the loop, for another transaction's.
  received :
      String
      → List ℕ
      → String
      → List ReadResult
      → Go (Option Response) × List ReadResult
      → Go Packet
      → Go (Option Response) × List ReadResult
  unfolding with_sender
  received local trans_id raddr rest skip (ok p) =
      if bytes_equal trans_id p.trans_id
      then (with_sender raddr (new_response lib (some p) local), rest)
      else skip
  received local trans_id raddr rest skip (err e) = (err e, rest)
  received local trans_id raddr rest skip panic = (panic, rest)
  received local trans_id raddr rest skip stuck = (stuck, rest)

  -- The inner loop, over what the connection will bring: `ok none` is the timeout that ends it.
  read_loop : String → List ℕ → List ReadResult → Go (Option Response) × List ReadResult
  unfolding received
  read_loop local trans_id [] = (ok none, [])
  read_loop local trans_id (timed_out ∷ rest) = (ok none, rest)
  read_loop local trans_id (read_error e ∷ rest) = (err (library e), rest)
  read_loop local trans_id (datagram packet_bytes raddr ∷ rest) =
      received local trans_id raddr rest (read_loop local trans_id rest)
        (new_packet_from_bytes packet_bytes)

  wait_answer : List ℕ → Run Net (Option Response)
  unfolding read_loop
  wait_answer trans_id net =
      let (r, rest) = read_loop net.local_addr trans_id net.reads in
      (r, record net { reads = rest })

  -- The outer loop, over the rounds that are left.
  send_loop : ℕ → ℕ → Packet → Option UdpAddr → Run Net (Option Response)
  unfolding wait_answer check next_timeout
  send_loop zero timeout pkt addr = lift (ok none)
  send_loop (suc rounds) timeout pkt addr = do
    n ← write_to (bytes pkt)
    _ ← check (n == length (bytes pkt))
    _ ← set_read_deadline (record { content = bytes pkt; addr = addr; timeout = timeout })
    resp ← wait_answer pkt.trans_id
    elim resp [
      | none ↦ send_loop rounds (next_timeout timeout) pkt addr
      | some r ↦ lift (ok (some r))
    ]

  pub send : Packet → Option UdpAddr → Run Net (Option Response)
  unfolding send_loop
  send pkt addr = send_loop num_retransmit default_timeout pkt addr

  unfoldable pub send_binding_req :
      List ℕ → Option UdpAddr → Bool → Bool → Run Net (Option Response)
  send_binding_req software_name addr change_ip change_port = do
    random ← rand_read
    pkt ← lift (new_packet (ok random))
    send (binding_request software_name change_ip change_port pkt) addr
