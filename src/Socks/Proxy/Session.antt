-- ===== src/Socks/Proxy/Session.antt =====
-- A whole connection of a client that speaks the protocol, in handleConnection of socks/socks.go.
use Prim.Native.String.{String}
use go_util.Prelude.{
  ℕ, ◌<◌, ◌≡◌, refl, sym, ap, ◌∙◌, Bool, false, Option, some, List, [], ◌∷◌, ◌++◌, map,
  append_assoc, length, ok, take, true,
}
use go_util.Wire.Slices.{IsU16}
use go_util.Socks.Conn.{Arrival, arrived, Conn}
use go_util.Socks.Reply.{reply}
use go_util.Socks.Request.{Texts}
use go_util.Socks.Request.Reading.{concat, pieces}
use go_util.Socks.Request.Greeting.{greeting, hand_shake-greeting}
use go_util.Socks.Request.Target.{Target, IsTarget, request, target_text, parse_target-request}
use go_util.Socks.Proxy.{Remote, net_copy, pipe_when_close, handle_connection, transfer, logged}

concat-append : (xs ys : List (List ℕ)) → concat (xs ++ ys) ≡ concat xs ++ concat ys
concat-append [] ys = refl
concat-append (x ∷ xs) ys =
    ap (λ t. x ++ t) (concat-append xs ys) ∙ sym (append_assoc x (concat xs) (concat ys))

map-append :
    (xs ys : List (List ℕ)) (rest : List Arrival)
    → map arrived xs ++ (map arrived ys ++ rest) ≡ map arrived (xs ++ ys) ++ rest
map-append [] ys rest = refl
map-append (x ∷ xs) ys rest = ap (λ t. arrived x ∷ t) (map-append xs ys rest)

net_copy-pieces :
    (chunks : List (List ℕ)) (reads : List Arrival)
    → net_copy (map arrived chunks ++ reads) ≡ concat chunks ++ net_copy reads
unfolding net_copy
net_copy-pieces [] reads = refl
net_copy-pieces (x ∷ xs) reads =
    ap (λ t. x ++ t) (net_copy-pieces xs reads) ∙ sym (append_assoc x (concat xs) (net_copy reads))

pipe_when_close-writable :
    (remote : Remote) (c : Conn)
    → c.writable ≡ true
    → pipe_when_close (some remote) c ≡ (
      ok (some (take remote.passed_on (net_copy c.reads))),
      record {
        reads = [];
        written = (c.written ++ reply remote.local_addr) ++ net_copy remote.reads;
        writable = true;
      },
    )
unfolding pipe_when_close transfer
pipe_when_close-writable remote c h = by_writes c.reads c.written c.writable h
  where
    by_writes :
        (reads : List Arrival) (written : List ℕ) (writable : Bool)
        → writable ≡ true
        → pipe_when_close
            (some remote)
            (record { reads = reads; written = written; writable = writable })
          ≡ (
            ok (some (take remote.passed_on (net_copy reads))),
            record {
              reads = [];
              written = (written ++ reply remote.local_addr) ++ net_copy remote.reads;
              writable = true;
            },
          )
    by_writes reads written true e = refl
    by_writes reads written false e = absurd (cc e)

-- On a connection that can be written to, a greeting and then a CONNECT request, each cut anywhere, are
-- answered by 5, 0 and the reply for the connection that the dial made; after that every byte of the
-- remote side goes to the client, and of the client's bytes go to the remote side, in order, those
-- that are passed on when the remote side ends.
pub handle_connection-session :
    (texts : Texts) (verbose : Bool) (dial : String → Option Remote) (remote : Remote)
    (methods : List ℕ) (target : Target) (port : ℕ) (greeted requested : List (List ℕ)) (c : Conn)
    → length methods < 256
    → c.writable ≡ true
    → IsTarget target
    → IsU16 port
    → concat greeted ≡ greeting methods
    → concat requested ≡ request target port
    → dial (texts.join_host_port (target_text texts target) port) ≡ some remote
    → handle_connection texts verbose dial (pieces greeted (pieces requested c)) ≡ (
      ok (some (take remote.passed_on (net_copy c.reads))),
      record {
        reads = [];
        written = ((c.written ++ (5 ∷ 0 ∷ [])) ++ reply remote.local_addr) ++ net_copy remote.reads;
        writable = true;
      },
    )
unfolding handle_connection logged
handle_connection-session texts verbose dial remote methods target port greeted requested c few
      open_end valid fits eg er ed =
    let h = hand_shake-greeting methods greeted (pieces requested c) few open_end eg in
    let confirmed = record c { written = c.written ++ (5 ∷ 0 ∷ []) } in
    let p =
      parse_target-request texts verbose target port (h.left ++ requested) confirmed valid fits
        (concat-append h.left requested ∙ ap (λ t. t ++ concat requested) h.nothing_left ∙ er) in
    rw
      (
        h.result,
        map-append h.left requested c.reads,
        p.result,
        ed,
        pipe_when_close-writable remote (pieces p.left confirmed) open_end,
        net_copy-pieces p.left c.reads,
        p.nothing_left,
      )
      refl
