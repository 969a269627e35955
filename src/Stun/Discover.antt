-- ===== src/Stun/Discover.antt =====
-- p2p/go-stun/stun/discover.go: the tests that tell the type of the NAT, in order.
-- The connection and what is sent over it are a parameter: a state, and `request addr change_ip
-- change_port`, which is sendBindingReq (Client puts the real one in). `none` is a nil pointer.
pub mod Kinds
pub mod Verdicts
use Prim.Native.String.{String}
use text.Mathlib.Text.{◌==◌ as str_eq}
use go_util.Prelude.{
  ℕ, ◌==◌, Bool, true, false, not, ◌&&◌, ◌||◌, Option, none, some, if◌then◌else◌, ok, err, panic,
  stuck, or_panic,
}
use go_util.Wire.Slices.{u16}
use go_util.Stun.Consts.{
  NatType, nat_error, nat_unknown, nat_none, nat_blocked, nat_full, nat_symmetric, nat_restricted,
  nat_port_restricted, nat_symmetric_udp_firewall,
}
use go_util.Stun.Library.{Library, UdpAddr, Go, Error, server_addr, no_changed_addr}
use go_util.Stun.Host.{Host, is_some, transport_addr}
use go_util.Stun.Response.{Response}
use go_util.Stun.Network.{Run, ◌>>=◌, lift}

-- The three results of `discover`.
pub record Verdict : Type 0 where
  pub nat : NatType
  pub host : Option Host
  pub error : Option Error

abbrev pub found : NatType → Option Host → Verdict
found nat host = record { nat = nat; host = host; error = none }

abbrev pub failed : Option Host → Error → Verdict
failed host e = record { nat = nat_error; host = host; error = some e }

-- resp.serverAddr.IP() == addr.IP.String() and resp.serverAddr.Port() == uint16(addr.Port)
same_ip : Library → Host → UdpAddr → Bool
same_ip lib host addr = str_eq host.ip (lib.ip_string addr.ip)

same_port : Host → UdpAddr → Bool
same_port host addr = host.port == u16 addr.port

-- mappedAddr.IP() == resp.mappedAddr.IP() && mappedAddr.Port() == resp.mappedAddr.Port()
same_host : Host → Host → Bool
same_host a b = str_eq a.ip b.ip && a.port == b.port

-- After test 2: `true` where the sender is not another IP at another port.
not_changed : Library → UdpAddr → Option Host → Go Bool
unfolding same_ip same_port
not_changed lib addr none = panic
not_changed lib addr (some sender) = ok (same_ip lib sender addr || same_port sender addr)

module _ {S : Type 0} (lib : Library)
    (request : Option UdpAddr → Bool → Bool → Run S (Option Response)) where
  unfoldable pub test1 : Option UdpAddr → Run S (Option Response)
  test1 addr = request addr false false

  pub test2 : Option UdpAddr → Run S (Option Response)
  test2 addr = request addr true true

  pub test3 : Option UdpAddr → Run S (Option Response)
  test3 addr = request addr false true

  -- A test that fails ends the discovery with its error.
  judged : Option Host → Go (Option Response) → (Option Response → Run S Verdict) → Run S Verdict
  judged mapped (ok resp) k = k resp
  judged mapped (err e) k = lift (ok (failed mapped e))
  judged mapped panic k = lift panic
  judged mapped stuck k = lift stuck

  on_test :
      Option Host → Run S (Option Response) → (Option Response → Run S Verdict) → Run S Verdict
  unfolding judged
  on_test mapped test k s = judged mapped (test s).0 k (test s).1

  -- After test 3, from another port of the changed address.
  after_test3 : Option Host → UdpAddr → Option Response → Run S Verdict
  unfolding same_ip same_port
  after_test3 mapped caddr none = lift (ok (found nat_port_restricted mapped))
  after_test3 mapped caddr (some resp) = do
    sender ← lift (or_panic resp.server_addr)
    lift (
        ok (
          if not (same_ip lib sender caddr) || same_port sender caddr
          then failed mapped server_addr
          else found nat_restricted mapped))

  -- After test 1 at the changed address.
  after_changed : Option Host → Option UdpAddr → Option Response → Run S Verdict
  unfolding after_test3 same_host on_test test3
  after_changed mapped caddr none = lift (ok (found nat_unknown mapped))
  after_changed mapped caddr (some resp) = do
    sender ← lift (or_panic resp.server_addr)
    to ← lift (or_panic caddr)
    let compare_mapped : Run S Verdict = do
      first ← lift (or_panic mapped)
      second ← lift (or_panic resp.mapped_addr)
      if same_host first second
          then on_test mapped (test3 caddr) (after_test3 mapped to)
          else lift (ok (found nat_symmetric mapped))
    if not (same_ip lib sender to && same_port sender to)
        then lift (ok (failed mapped server_addr))
        else compare_mapped

  -- What test 2 says, once its sender is known to be another.
  classify : Bool → Option Response → Option Host → Host → Run S Verdict
  unfolding after_changed test1
  classify true none mapped changed = lift (ok (found nat_symmetric_udp_firewall mapped))
  classify true (some resp) mapped changed = lift (ok (found nat_none mapped))
  classify false (some resp) mapped changed = lift (ok (found nat_full mapped))
  classify false none mapped changed =
      let caddr = lib.resolve_udp_addr (transport_addr lib changed) in
      on_test mapped (test1 caddr) (after_changed mapped caddr)

  -- After test 2.
  after_test2 : UdpAddr → Bool → Option Host → Host → Option Response → Run S Verdict
  unfolding not_changed classify
  after_test2 addr identical mapped changed none = classify identical none mapped changed
  after_test2 addr identical mapped changed (some resp) = do
    unchanged ← lift (not_changed lib addr resp.server_addr)
    if unchanged
        then lift (ok (failed mapped server_addr))
        else classify identical (some resp) mapped changed

  -- changedAddr, or else otherAddr.
  changed_or_other : Response → Option Host
  changed_or_other resp = elim resp.changed_addr [ none ↦ resp.other_addr | some host ↦ some host ]

  -- With an address to change to, test 2 is made.
  with_changed : UdpAddr → Response → Option Host → Run S Verdict
  unfolding after_test2 test2
  with_changed addr resp none = lift (ok (failed resp.mapped_addr no_changed_addr))
  with_changed addr resp (some changed) =
      on_test resp.mapped_addr (test2 (some addr))
        (after_test2 addr resp.identical resp.mapped_addr changed)

  -- After the first test 1.
  after_test1 : UdpAddr → Option Response → Run S Verdict
  unfolding with_changed changed_or_other
  after_test1 addr none = lift (ok (found nat_blocked none))
  after_test1 addr (some resp) = do
    sender ← lift (or_panic resp.server_addr)
    if not (same_ip lib sender addr && same_port sender addr)
        then lift (ok (failed resp.mapped_addr server_addr))
        else with_changed addr resp (changed_or_other resp)

  unfoldable pub discover : UdpAddr → Run S Verdict
  unfolding on_test after_test1
  discover addr = on_test none (test1 (some addr)) (after_test1 addr)
