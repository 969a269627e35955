-- ===== src/Tests/Socks.antt =====
-- socks/socks.go: a session that comes in small pieces.
use go_util.Prelude.{
  ℕ, ◌≡◌, refl, arith, true, false, some, List, [], ◌∷◌, ◌++◌, replicate, append-nil, ok, panic,
}
use go_util.Socks.Conn.{Conn, arrived, ended}
use go_util.Socks.Reply.{TcpAddr, unset, reply}
use go_util.Socks.Request.{Texts, parse_target}
use go_util.Socks.Request.Reading.{pieces, concat, Whole}
use go_util.Socks.Request.Target.{
  Target, ipv4, domain, IsTarget, request, target_bytes, target_type, target_text,
  parse_target-request, parse_target_panics,
}
use go_util.Socks.Proxy.{Remote, net_copy, handle_connection}
use go_util.Socks.Proxy.Session.{handle_connection-session}

abbrev texts : Texts
texts = record {
  ip_string = λ ip. "10.0.0.1";
  string_of = λ name. "example.org";
  join_host_port = λ host port. host;
}

abbrev local : TcpAddr
local = record { ip = 192 ∷ 168 ∷ 0 ∷ 2 ∷ []; port = 40000; zone = unset }

abbrev remote : Remote
remote = record { local_addr = local; reads = arrived (7 ∷ 8 ∷ []) ∷ []; passed_on = 3 }

-- After the request the client sends four bytes more.
abbrev client : Conn
client = record {
  reads = arrived (1 ∷ 2 ∷ []) ∷ ended true (3 ∷ 4 ∷ []) ∷ [];
  written = [];
  writable = true;
}

abbrev greeted : List (List ℕ)
greeted = (5 ∷ []) ∷ [] ∷ (2 ∷ 0 ∷ []) ∷ (1 ∷ []) ∷ []

abbrev host : Target
host = ipv4 (10 ∷ 0 ∷ 0 ∷ 1 ∷ [])

abbrev requested : List (List ℕ)
requested = (5 ∷ 1 ∷ []) ∷ (0 ∷ 1 ∷ 10 ∷ 0 ∷ []) ∷ (0 ∷ 1 ∷ 31 ∷ 144 ∷ []) ∷ []

host-IsTarget : IsTarget host
unfolding IsTarget
host-IsTarget = refl

requested-host : concat requested ≡ request host 8080
unfolding target_bytes target_type
requested-host = refl

parse_target-request_example :
    Whole
      (texts.join_host_port (target_text texts host) 8080)
      client
      (parse_target texts true (pieces requested client))
parse_target-request_example =
    parse_target-request texts true host 8080 requested client host-IsTarget (omega arith)
      requested-host

handle_connection-session_example :
    handle_connection texts false (λ target. some remote) (pieces greeted (pieces requested client))
    ≡ (
      ok (some (1 ∷ 2 ∷ 3 ∷ [])),
      record { reads = []; written = (5 ∷ 0 ∷ reply local) ++ (7 ∷ 8 ∷ []); writable = true },
    )
unfolding net_copy
handle_connection-session_example =
    handle_connection-session texts false (λ target. some remote) remote (0 ∷ 1 ∷ []) host 8080
      greeted requested client (omega arith) refl host-IsTarget (omega arith) refl requested-host
      refl

abbrev long_name : List ℕ
long_name = replicate 251 97

parse_target_panics_example :
    (parse_target texts false (pieces (request (domain long_name) 80 ∷ []) client)).0 ≡ panic
parse_target_panics_example =
    parse_target_panics texts false long_name 80 (request (domain long_name) 80 ∷ []) client
      (omega arith) (omega arith) (append-nil (request (domain long_name) 80))
