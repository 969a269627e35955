-- ===== src/Socks/Request/Greeting.antt =====
-- The greeting, as handShake reads it from a stream that cuts it anywhere.
use go_util.Prelude.{ℕ, ◌+◌, ◌<◌, ◌≡◌, refl, arith, true, List, [], ◌∷◌, ◌++◌, length}
use go_util.Socks.Conn.{Conn, auth_extra_data}
use go_util.Socks.Request.{hand_shake}
use go_util.Socks.Request.Reading.{
  concat, pieces, Whole, read_at_least-Begun, fill_up-Whole, get_elem?-buffer,
}

-- The client's greeting: the version, and the methods that it offers.
abbrev pub greeting : List ℕ → List ℕ
greeting methods = 5 ∷ length methods ∷ methods

-- However the pieces cut a greeting of up to 255 methods, handShake reads all of it, nothing is left,
-- and on a connection that can be written to it answers that no authentication is required.
pub hand_shake-greeting :
    (methods : List ℕ) (chunks : List (List ℕ)) (c : Conn)
    → length methods < 256
    → c.writable ≡ true
    → concat chunks ≡ greeting methods
    → Whole tt (record c { written = c.written ++ (5 ∷ 0 ∷ []) }) (hand_shake (pieces chunks c))
unfolding hand_shake
hand_shake-greeting methods chunks c fits open_end e =
    let b = read_at_least-Begun 2 258 (greeting methods) chunks c e (omega arith) (omega arith) in
    let at0 =
      get_elem?-buffer 258 0 b.got (concat b.left) (greeting methods) b.same
        (omega (arith, b.enough)) in
    let at1 =
      get_elem?-buffer 258 1 b.got (concat b.left) (greeting methods) b.same
        (omega (arith, b.enough)) in
    let w =
      fill_up-Whole auth_extra_data b.got (greeting methods) (length methods + 2) b.left c b.same
        (omega arith) in
    record {
      left = w.left;
      result = rw (b.result, at0, at1, w.result, open_end) refl;
      nothing_left = w.nothing_left;
    }
