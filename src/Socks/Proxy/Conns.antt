-- ===== src/Socks/Proxy/Conns.antt =====
-- The package's list of connections, Conns of socks/socks.go.
use go_util.Prelude.{
  ℕ, ◌≡◌, ◌≢◌, refl, ap, List, [], ◌∷◌, All, ◌==◌, inl, inr, Bool-cases, ==→eq, ==_refl,
}
use go_util.Socks.Proxy.{add_conn, remove_conn}

-- A connection that was not in the list leaves it as it was, once it is taken out again.
remove_conn-add_conn :
    (conns : List ℕ) (conn : ℕ)
    → All (λ c. c ≢ conn) conns
    → remove_conn (add_conn conns conn) conn ≡ conns
unfolding add_conn remove_conn
remove_conn-add_conn [] conn h = rw (==_refl conn) refl
remove_conn-add_conn (c ∷ rest) conn h = elim (Bool-cases (c == conn)) [
  | inl e ↦ absurd (h.0 (==→eq c conn e))
  | inr e ↦ rw e (ap (λ t. c ∷ t) (remove_conn-add_conn rest conn h.1))
]
