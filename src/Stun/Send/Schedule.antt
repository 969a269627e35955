-- ===== src/Stun/Send/Schedule.antt =====
-- How often `send` of p2p/go-stun/stun/net.go sends the request, and how long it waits each time.
use go_util.Prelude.{
  ℕ, zero, suc, ◌≤◌, ◌≡◌, ◌≢◌, refl, sym, ap, ◌∙◌, ◌⊎◌, inl, inr, Option, none, some, List, [], ◌∷◌,
  ◌++◌, append_assoc, append-nil, map, length, take, ok, arith, ◌==◌, Bool, true, false,
}
use go_util.Stun.Library.{Library, UdpAddr, Go}
use go_util.Stun.Packet.{Packet, bytes}
use go_util.Stun.Response.{Response}
use go_util.Stun.Network.{
  Net, Sent, bind_cases, write_to, set_read_deadline, WriteResult, written, write_error, write_with,
  deadline_with,
}
use go_util.Stun.Send.{next_timeout, wait_answer, check, send_loop, send}

-- The waits of the rounds that are left.
abbrev schedule : ℕ → ℕ → List ℕ
schedule zero timeout = []
schedule (suc rounds) timeout = timeout ∷ schedule rounds (next_timeout timeout)

write_with_log :
    (ws : List WriteResult) (content : List ℕ) (net : Net)
    → (write_with ws content net).1.sent ≡ net.sent
unfolding write_with
write_with_log [] content net = refl
write_with_log (written n ∷ rest) content net = refl
write_with_log (write_error e ∷ rest) content net = refl

check_state : (b : Bool) (net : Net) → (check b net).1 ≡ net
unfolding check
check_state true net = refl
check_state false net = refl

deadline_with_log :
    (ds : List (Option ℕ)) (entry : Sent) (net : Net)
    → (deadline_with ds entry net).1.sent ≡ net.sent ++ (entry ∷ [])
unfolding deadline_with
deadline_with_log [] entry net = refl
deadline_with_log (none ∷ rest) entry net = refl
deadline_with_log (some e ∷ rest) entry net = refl

module _ (lib : Library) (pkt : Packet) (addr : Option UdpAddr) where
  entry : ℕ → Sent
  entry timeout = record { content = bytes pkt; addr = addr; timeout = timeout }

  -- A run that sends `k` times, and gives up only when that is all.
  Sends : (all : List ℕ) → ℕ → Net → Go (Option Response) × Net → Type 0
  Sends all rounds net r =
      (k : ℕ) × (k ≤ rounds)
      × (r.1.sent ≡ net.sent ++ map entry (take k all))
      × ((k ≡ rounds) ⊎ (r.0 ≢ ok none))

  ends_unsent :
      (rounds timeout : ℕ) (net net' : Net) (r : Go (Option Response))
      → net'.sent ≡ net.sent
      → ((o : Option Response) → r ≢ ok o)
      → Sends (schedule (suc rounds) timeout) (suc rounds) net (r, net')
  unfolding Sends
  ends_unsent rounds timeout net net' r log ne =
      (0, omega arith, log ∙ sym (append-nil net.sent), inr (ne none))

  ends_sent :
      (rounds timeout : ℕ) (net net' : Net) (r : Go (Option Response))
      → net'.sent ≡ net.sent ++ (entry timeout ∷ [])
      → r ≢ ok none
      → Sends (schedule (suc rounds) timeout) (suc rounds) net (r, net')
  unfolding Sends
  ends_sent rounds timeout net net' r log ne = (1, omega arith, log, inr ne)

  goes_on :
      (rounds timeout : ℕ) (net net' : Net) (r : Go (Option Response) × Net)
      → net'.sent ≡ net.sent ++ (entry timeout ∷ [])
      → Sends (schedule rounds (next_timeout timeout)) rounds net' r
      → Sends (schedule (suc rounds) timeout) (suc rounds) net r
  unfolding Sends
  goes_on rounds timeout net net' r log (k, le, sent, why) = (
    suc k,
    omega arith,
    sent ∙ rw log (append_assoc net.sent (entry timeout ∷ []) _),
    elim why [ inl e ↦ inl (ap suc e) | inr ne ↦ inr ne ],
  )

  send_loop-Sends :
      (rounds timeout : ℕ) (net : Net)
      → Sends (schedule rounds timeout) rounds net (send_loop lib rounds timeout pkt addr net)
  unfolding send_loop entry
  send_loop-Sends zero timeout net =
      unfold Sends in (0, omega arith, sym (append-nil net.sent), inl refl)
  send_loop-Sends (suc rounds) timeout net =
      bind_cases P (write_to (bytes pkt)) _ net
        (λ n _.
          bind_cases P (check (n == length (bytes pkt))) _ written_net
            (λ _ _.
              bind_cases P (set_read_deadline (entry timeout)) _ (checked_net n)
                (λ _ _.
                  bind_cases P (wait_answer lib pkt.trans_id) _ (logged_net n)
                    (elim [
                      | none ↦ λ _.
                          goes_on rounds timeout net _ _ (logged n)
                            (send_loop-Sends rounds (next_timeout timeout) _)
                      | some r ↦
                          λ _. ends_sent rounds timeout net _ (ok (some r)) (logged n) (λ e. cc)
                    ])
                    (λ r ne _. ends_sent rounds timeout net _ r (logged n) (ne none)))
                (λ r ne _. ends_sent rounds timeout net _ r (logged n) (ne none)))
            (λ r ne _. ends_unsent rounds timeout net _ r (unsent n) ne))
        (λ r ne _. ends_unsent rounds timeout net _ r (write_with_log net.writes _ net) ne)
    where
      P : Go (Option Response) × Net → Type 0
      P = Sends (schedule (suc rounds) timeout) (suc rounds) net

      written_net : Net
      written_net = (write_to (bytes pkt) net).1

      checked_net : ℕ → Net
      checked_net n = (check (n == length (bytes pkt)) written_net).1

      logged_net : ℕ → Net
      logged_net n = (set_read_deadline (entry timeout) (checked_net n)).1

      unsent : (n : ℕ) → (checked_net n).sent ≡ net.sent
      unsent n = rw check_state (write_with_log net.writes (bytes pkt) net)

      logged : (n : ℕ) → (logged_net n).sent ≡ net.sent ++ (entry timeout ∷ [])
      logged n =
          deadline_with_log _ (entry timeout) (checked_net n)
          ∙ ap (λ (t : List Sent). t ++ (entry timeout ∷ [])) (unsent n)

  -- `send` sends the same datagram to the same address at most nine times and waits 100, 200, 400,
  -- 800 and then 1600 milliseconds for an answer; it returns nil only after all nine.
  pub send_schedule :
      (net : Net)
      → let r = send lib pkt addr net in
        (k : ℕ) × (k ≤ 9)
        × (r.1.sent
            ≡ net.sent
              ++ map
                  (λ t. record { content = bytes pkt; addr = addr; timeout = t })
                  (take k (100 ∷ 200 ∷ 400 ∷ 800 ∷ 1600 ∷ 1600 ∷ 1600 ∷ 1600 ∷ 1600 ∷ [])))
        × ((k ≡ 9) ⊎ (r.0 ≢ ok none))
  unfolding send Sends entry next_timeout
  send_schedule net = send_loop-Sends 9 100 net
