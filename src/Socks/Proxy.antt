-- ===== src/Socks/Proxy.antt =====
-- netCopy, pipeWhenClose and handleConnection of socks/socks.go.
pub mod Session
pub mod Conns
use Prim.Native.String.{String}
use go_util.Prelude.{
  ℕ, Bool, true, false, Option, none, some, List, [], ◌∷◌, ◌++◌, take, ◌==◌, if◌then◌else◌, Outcome,
  ok, err, panic, stuck,
}
use go_util.Socks.Conn.{Error, Arrival, arrived, ended, Conn, Run, ◌>>=◌, lift, write_over}
use go_util.Socks.Reply.{TcpAddr, reply}
use go_util.Socks.Request.{Texts, hand_shake, parse_target}

-- The bytes that netCopy writes. (More than 8192 that arrive at once are read in several turns, each
-- of which writes what it read.) A write's error is not looked at.
unfoldable pub net_copy : List Arrival → List ℕ
net_copy [] = []
net_copy (arrived xs ∷ rest) = xs ++ net_copy rest
net_copy (ended true xs ∷ rest) = xs
net_copy (ended false xs ∷ rest) = []

-- A connection to the target: its own address, what it brings, and how many of the client's bytes have
-- been passed on to it when its reads end.
pub record Remote : Type 0 where
  pub local_addr : TcpAddr
  pub reads : List Arrival
  pub passed_on : ℕ

-- What was sent to the remote side; `none` where no connection was made.
abbrev pub Sent : Type 0
Sent = Option (List ℕ)

-- Both copies, which run side by side. When the copy from the remote side ends both connections are
-- closed, and the goroutine that copies from the client passes on nothing more.
transfer : Remote → Run Sent
unfolding net_copy
transfer remote c = (
  ok (some (take remote.passed_on (net_copy c.reads))),
  record (write_over (net_copy remote.reads) c).1 { reads = [] },
)

-- The argument is what net.DialTimeout gives for the target.
unfoldable pub pipe_when_close : Option Remote → Run Sent
unfolding transfer
pipe_when_close none = lift (ok none)
pipe_when_close (some remote) = do _ ← write_over (reply remote.local_addr); transfer remote

-- What the log alone learns of an error, the client does not.
logged : Outcome Error Sent × Conn → Outcome Error Sent × Conn
logged (err e, c) = (ok none, c)
logged (ok s, c) = (ok s, c)
logged (panic, c) = (panic, c)
logged (stuck, c) = (stuck, c)

unfoldable pub handle_connection : Texts → Bool → (String → Option Remote) → Run Sent
unfolding logged
handle_connection texts verbose dial c = logged (whole c)
  where
    whole : Run Sent
    whole = do _ ← hand_shake; addr ← parse_target texts verbose; pipe_when_close (dial addr)

-- The package's list of connections, each named by a number of its own: the deferred loop takes the
-- connection out.
unfoldable pub add_conn : List ℕ → ℕ → List ℕ
add_conn conns conn = conns ++ (conn ∷ [])

unfoldable pub remove_conn : List ℕ → ℕ → List ℕ
remove_conn [] conn = []
remove_conn (c ∷ rest) conn =
    let later = remove_conn rest conn in if c == conn then rest else c ∷ later
