-- ===== src/Stun/Client.antt =====
-- p2p/go-stun/stun/client.go and log.go: the client's settings, and its two calls.
use Prim.Native.String.{String}
use text.Mathlib.Text.{◌==◌ as str_eq}
use go_util.Prelude.{
  ℕ, Bool, false, Option, none, some, List, [], ◌∷◌, if◌then◌else◌, ok, err, panic, stuck,
}
use go_util.Stun.Consts.{default_server_addr}
use go_util.Stun.Library.{Library, UdpAddr, Go, library, no_connection, no_contact}
use go_util.Stun.Host.{Host}
use go_util.Stun.Response.{Response}
use go_util.Stun.Network.{Net, Run}
use go_util.Stun.Send.{send_binding_req}
use go_util.Stun.Discover.{Verdict, failed, discover, test1}

-- The two switches of the logger.
pub record Logger : Type 0 where
  pub debug : Bool
  pub info : Bool

pub record Client : Type 0 where
  pub server_addr : String
  pub software_name : List ℕ
  pub conn : Option Net
  pub logger : Logger

-- The bytes of DefaultSoftwareName, "StunClient".
abbrev default_software_bytes : List ℕ
default_software_bytes = b'S' ∷ b't' ∷ b'u' ∷ b'n' ∷ b'C' ∷ b'l' ∷ b'i' ∷ b'e' ∷ b'n' ∷ b't' ∷ []

new_logger : Logger
new_logger = record { debug = false; info = false }

pub set_software_name : List ℕ → Client → Client
set_software_name name c = record c { software_name = name }

pub new_client_with_connection : Option Net → Client
unfolding set_software_name new_logger
new_client_with_connection conn =
    set_software_name default_software_bytes
      (record { server_addr = ""; software_name = []; conn = conn; logger = new_logger })

pub new_client : Client
unfolding new_client_with_connection
new_client = new_client_with_connection none

pub set_verbose : Bool → Client → Client
set_verbose v c = record c { logger = record (c.logger) { debug = v } }

pub set_v_verbose : Bool → Client → Client
set_v_verbose v c = record c { logger = record (c.logger) { info = v } }

pub set_server_addr : String → Client → Client
set_server_addr address c = record c { server_addr = address }

pub set_server_host : Library → String → ℕ → Client → Client
set_server_host lib host port c = record c { server_addr = lib.join_host_port host port }

-- An empty server address is set to the default.
default_server : Client → Client
unfolding set_server_addr
default_server c = if str_eq c.server_addr "" then set_server_addr default_server_addr c else c

module _ (lib : Library) where
  request_of : Client → Option UdpAddr → Bool → Bool → Run Net (Option Response)
  request_of c addr change_ip change_port =
      send_binding_req lib c.software_name addr change_ip change_port

  -- The client's own connection is kept as the calls left it.
  run_discover : Client → UdpAddr → Option Net → Option Net → Go Verdict × Client
  unfolding request_of
  run_discover c addr (some net) listen =
      let (r, net') = discover lib (request_of c) addr net in (r, record c { conn = some net' })
  run_discover c addr none (some net) = ((discover lib (request_of c) addr net).0, c)
  run_discover c addr none none = (ok (failed none (library 0)), c)

  -- `listen` is what net.ListenUDP brings, where the client has no connection.
  pub discover_nat : Option Net → Client → Go Verdict × Client
  unfolding default_server run_discover
  discover_nat listen c =
      let c' = default_server c in
      elim (lib.resolve_udp_addr c'.server_addr) [
        | none ↦ (ok (failed none (library 0)), c')
        | some addr ↦ run_discover c' addr c'.conn listen
      ]

  kept : Go (Option Response) → Go (Option Host)
  kept (ok none) = err no_contact
  kept (ok (some resp)) = elim resp.packet [ none ↦ err no_contact | some p ↦ ok resp.mapped_addr ]
  kept (err e) = err e
  kept panic = panic
  kept stuck = stuck

  keep : Client → Option Net → Go (Option Host) × Client
  unfolding kept request_of default_server test1
  keep c none = (err no_connection, c)
  keep c (some net) =
      let c' = default_server c in
      elim (lib.resolve_udp_addr c'.server_addr) [
        | none ↦ (err (library 0), c')
        | some addr ↦
            let (r, net') = test1 lib (request_of c') (some addr) net in
            (kept r, record c' { conn = some net' })
      ]

  pub keepalive : Client → Go (Option Host) × Client
  unfolding keep
  keepalive c = keep c c.conn
