-- ===== src/Socks/Request/Target.antt =====
-- A CONNECT request, as parseTarget reads it from a stream that cuts it anywhere.
use Prim.Native.String.{String}
use go_util.Prelude.{
  ℕ, ◌+◌, ◌-◌, ◌%◌, ◌<◌, ◌≤◌, ◌≡◌, refl, ap, sym, ◌∙◌, arith, Bool, true, false, Outcome, get_elem?,
  List, [], ◌∷◌, ◌++◌, length, length-append, append_assoc, append-nil, some, ok, panic, replicate,
}
use go_util.Wire.Slices.{IsU16, put_uint16, full, reslice_at, reslice_backwards}
use go_util.Socks.Conn.{Conn, Error, read_at_least, buffer, req_extra_data}
use go_util.Socks.Request.{
  Texts, parse_target, cut, fill_up, requested_length, host_text, port_of, checked, located,
}
use go_util.Socks.Request.Reading.{
  concat, pieces, Whole, Begun, read_at_least-Begun, fill_up-Whole, get_elem?-buffer,
}

pub data Target : Type 0 where
  ipv4 ipv6 domain : List ℕ → Target

unfoldable pub target_type : Target → ℕ
target_type (ipv4 ip) = 1
target_type (ipv6 ip) = 4
target_type (domain name) = 3

unfoldable pub target_bytes : Target → List ℕ
target_bytes (ipv4 ip) = ip
target_bytes (ipv6 ip) = ip
target_bytes (domain name) = length name ∷ name

unfoldable pub target_text : Texts → Target → String
target_text texts (ipv4 ip) = texts.ip_string ip
target_text texts (ipv6 ip) = texts.ip_string ip
target_text texts (domain name) = texts.string_of name

-- Addresses have their lengths, and a domain name has at most 250 bytes.
unfoldable pub IsTarget : Target → Type 0
IsTarget (ipv4 ip) = length ip ≡ 4
IsTarget (ipv6 ip) = length ip ≡ 16
IsTarget (domain name) = length name ≤ 250

-- What stands in the buffer at idDmLen.
unfoldable fifth : Target → ℕ
fifth (ipv4 []) = 0
fifth (ipv4 (x ∷ xs)) = x
fifth (ipv6 []) = 0
fifth (ipv6 (x ∷ xs)) = x
fifth (domain name) = length name

-- RFC 1928, section 4, with the command CONNECT.
abbrev pub request : Target → ℕ → List ℕ
request target port =
    (5 ∷ 1 ∷ 0 ∷ target_type target ∷ []) ++ (target_bytes target ++ put_uint16 port)

-- Cutting the middle out of a buffer.
cut-middle :
    (buf front middle back : List ℕ) (lo hi : ℕ) (c : Conn)
    → buf ≡ front ++ (middle ++ back)
    → lo ≡ length front
    → hi ≡ lo + length middle
    → cut buf lo hi c ≡ (ok middle, c)
unfolding cut
cut-middle buf front middle back lo hi c e el eh =
    rw (reslice_at (full buf) lo hi front middle back (append-nil buf ∙ e) el eh) refl

-- The field between a request's first bytes and its port.
cut-field :
    (front field zeros : List ℕ) (port lo hi : ℕ) (c : Conn)
    → lo ≡ length front
    → hi ≡ lo + length field
    → cut ((front ++ (field ++ put_uint16 port)) ++ zeros) lo hi c ≡ (ok field, c)
cut-field front field zeros port lo hi c el eh =
    cut-middle ((front ++ (field ++ put_uint16 port)) ++ zeros) front field
      (put_uint16 port ++ zeros) lo hi c
      (append_assoc front (field ++ put_uint16 port) zeros
        ∙ ap (λ t. front ++ t) (append_assoc field (put_uint16 port) zeros))
      el eh

port_of-request :
    (front field zeros : List ℕ) (port size : ℕ) (c : Conn)
    → IsU16 port
    → size ≡ length front + length field + 2
    → port_of ((front ++ (field ++ put_uint16 port)) ++ zeros) size c ≡ (ok port, c)
unfolding port_of
port_of-request front field zeros port size c fits e =
    rw
      (cut-middle ((front ++ (field ++ put_uint16 port)) ++ zeros) (front ++ field)
        (put_uint16 port) zeros (size - 2) size c
        (ap (λ t. t ++ zeros) (sym (append_assoc front field (put_uint16 port)))
          ∙ append_assoc (front ++ field) (put_uint16 port) zeros)
        (omega (arith, length-append front field)) (omega arith))
      (ap (λ t. (ok t, c)) (omega arith))

-- The bytes before a target's.
abbrev start : ℕ → List ℕ
start atype = 5 ∷ 1 ∷ 0 ∷ atype ∷ []

-- The address and the port that stand in the buffer after a request.
located-request :
    (texts : Texts) (target : Target) (port size : ℕ) (zeros : List ℕ) (c : Conn)
    → IsTarget target
    → IsU16 port
    → size ≡ length (request target port)
    → located texts (request target port ++ zeros) (target_type target) (fifth target) size c
      ≡ (ok (texts.join_host_port (target_text texts target) port), c)
unfolding located host_text target_type target_bytes target_text IsTarget fifth
located-request texts (ipv4 ip) port size zeros c valid fits e =
    rw
      (
        cut-field (start 1) ip zeros port 4 8 c refl (omega (arith, valid)),
        port_of-request (start 1) ip zeros port size c fits
            (omega (arith, e, length-append ip (put_uint16 port))),
      )
      refl
located-request texts (ipv6 ip) port size zeros c valid fits e =
    rw
      (
        cut-field (start 4) ip zeros port 4 20 c refl (omega (arith, valid)),
        port_of-request (start 4) ip zeros port size c fits
            (omega (arith, e, length-append ip (put_uint16 port))),
      )
      refl
located-request texts (domain name) port size zeros c valid fits e =
    rw
      (
        cut-field (start 3 ++ (length name ∷ [])) name zeros port 5 ((5 + length name) % 256) c refl
            (omega (arith, valid)),
        port_of-request (start 3 ++ (length name ∷ [])) name zeros port size c fits
            (omega (arith, e, length-append name (put_uint16 port))),
      )
      refl

-- With the whole request read, parseTarget comes to the address in the buffer.
record Read (texts : Texts) (msg : List ℕ) (atype len : ℕ) (c : Conn)
    (r : Outcome Error String × Conn) : Type 0 where
  left : List (List ℕ)
  result : r ≡ located texts (buffer 263 msg) atype len (length msg) (pieces left c)
  nothing_left : concat left ≡ []

parse_target-Read :
    (texts : Texts) (verbose : Bool) (msg : List ℕ) (chunks : List (List ℕ)) (c : Conn)
    (atype len : ℕ)
    → concat chunks ≡ msg
    → 5 ≤ length msg
    → length msg ≤ 263
    → get_elem? msg 0 ≡ some 5
    → get_elem? msg 1 ≡ some 1
    → get_elem? msg 3 ≡ some atype
    → get_elem? msg 4 ≡ some len
    → requested_length atype len ≡ ok (length msg)
    → Read texts msg atype len c (parse_target texts verbose (pieces chunks c))
unfolding parse_target checked
parse_target-Read texts verbose msg chunks c atype len e h1 h2 e0 e1 e3 e4 es = record {
  left = w.left;
  result =
      rw
        (
          b.result,
          at 0 (omega arith),
          e0,
          at 1 (omega arith),
          e1,
          no_panic verbose,
          at 3 (omega arith),
          e3,
          at 4 (omega arith),
          e4,
          es,
          w.result,
        )
        refl;
  nothing_left = w.nothing_left;
}
  where
    b : Begun 5 msg c (read_at_least 5 263 (pieces chunks c))
    b = read_at_least-Begun 5 263 msg chunks c e h1 h2

    at : (i : ℕ) → i < 5 → get_elem? (buffer 263 b.got) i ≡ get_elem? msg i
    at i h = get_elem?-buffer 263 i b.got (concat b.left) msg b.same (omega (arith, b.enough))

    w : Whole msg c (fill_up req_extra_data b.got (length msg) (pieces b.left c))
    w = fill_up-Whole req_extra_data b.got msg (length msg) b.left c b.same refl

    no_panic : (v : Bool) → checked v 5 1 ≡ ok tt
    no_panic true = refl
    no_panic false = refl

fifth-request :
    (target : Target) (port : ℕ)
    → IsTarget target
    → get_elem? (request target port) 4 ≡ some (fifth target)
unfolding target_bytes fifth IsTarget
fifth-request (ipv4 []) port h = absurd (omega (arith, h))
fifth-request (ipv4 (x ∷ xs)) port h = refl
fifth-request (ipv6 []) port h = absurd (omega (arith, h))
fifth-request (ipv6 (x ∷ xs)) port h = refl
fifth-request (domain name) port h = refl

length-request :
    (target : Target) (port : ℕ)
    → IsTarget target
    → (length (request target port) ≤ 257)
      × (7 ≤ length (request target port))
      × (requested_length (target_type target) (fifth target) ≡ ok (length (request target port)))
unfolding target_bytes fifth IsTarget target_type requested_length
length-request (ipv4 ip) port h =
    let l = length-append ip (put_uint16 port) in
    (omega (arith, h, l), omega (arith, h, l), ap ok (omega (arith, h, l)))
length-request (ipv6 ip) port h =
    let l = length-append ip (put_uint16 port) in
    (omega (arith, h, l), omega (arith, h, l), ap ok (omega (arith, h, l)))
length-request (domain name) port h =
    let l = length-append name (put_uint16 port) in
    (omega (arith, h, l), omega (arith, h, l), ap ok (omega (arith, h, l)))

-- However the pieces cut a CONNECT request for an IPv4 or IPv6 address or a domain name of at most
-- 250 bytes, parseTarget reads all of it and returns its address and port.
pub parse_target-request :
    (texts : Texts) (verbose : Bool) (target : Target) (port : ℕ) (chunks : List (List ℕ))
    (c : Conn)
    → IsTarget target
    → IsU16 port
    → concat chunks ≡ request target port
    → Whole
        (texts.join_host_port (target_text texts target) port)
        c
        (parse_target texts verbose (pieces chunks c))
parse_target-request texts verbose target port chunks c valid fits e =
    let (most, least, size) = length-request target port valid in
    let r =
      parse_target-Read texts verbose (request target port) chunks c (target_type target)
        (fifth target) e (omega (arith, least)) (omega (arith, most)) refl refl refl
        (fifth-request target port valid) size in
    record {
      left = r.left;
      result =
          r.result
          ∙ located-request texts target port (length (request target port))
              (replicate (263 - length (request target port)) 0) (pieces r.left c) valid fits refl;
      nothing_left = r.nothing_left;
    }

-- A CONNECT request for a domain name of 251 to 255 bytes makes parseTarget panic: the end of the
-- name is computed in bytes, and wraps.
pub parse_target_panics :
    (texts : Texts) (verbose : Bool) (name : List ℕ) (port : ℕ) (chunks : List (List ℕ)) (c : Conn)
    → 250 < length name
    → length name < 256
    → concat chunks ≡ request (domain name) port
    → (parse_target texts verbose (pieces chunks c)).0 ≡ panic
unfolding located host_text cut target_type target_bytes requested_length
parse_target_panics texts verbose name port chunks c more less e =
    let l = length-append name (put_uint16 port) in
    let r =
      parse_target-Read texts verbose (request (domain name) port) chunks c 3 (length name) e
        (omega (arith, l)) (omega (arith, l)) refl refl refl refl (ap ok (omega (arith, l))) in
    rw r.result (
      rw
        (reslice_backwards (full (buffer 263 (request (domain name) port))) 5
          ((5 + length name) % 256) (omega arith))
        refl)
