-- ===== src/Socks/Reply/Shape.antt =====
-- The reply is one that RFC 1928, section 6, allows.
use go_util.Prelude.{
  ℕ, ◌/◌, ◌%◌, ◌≡◌, ◌⊎◌, refl, inl, inr, arith, true, List, [], ◌∷◌, ◌++◌, length, ◌==◌,
  if◌then◌else◌, length-drop, Bool-cases,
}
use go_util.Socks.Reply.{
  or_nil, TcpAddr, unset, to4, to16, ip_equal, zone_of, address_type, address_bytes, reply,
}

-- An address of type 1 has 4 bytes, one of type 4 has 16.
unfoldable pub field_size : ℕ → ℕ
field_size atype = if atype == 1 then 4 else if atype == 4 then 16 else 0

-- Version 5, success, reserved, the address type, an address of that type's size, the port.
pub record IsReply (addr : TcpAddr) (bytes : List ℕ) : Type 0 where
  pub atype : ℕ
  pub field : List ℕ
  pub layout :
      bytes
      ≡ (5 ∷ 0 ∷ 0 ∷ atype ∷ []) ++ (field ++ ((addr.port / 256 % 256) ∷ (addr.port % 256) ∷ []))
  pub size : length field ≡ field_size atype

to4-some :
    (ip : List ℕ)
    → (length ip ≡ 4) ⊎ (length ip ≡ 16)
    → ip_equal ip (or_nil (to4 ip)) ≡ true
    → length (or_nil (to4 ip)) ≡ 4
unfolding to4 ip_equal
to4-some ip h e = ground (arith, length-drop 12 ip)

length-to16 : (ip : List ℕ) → (length ip ≡ 4) ⊎ (length ip ≡ 16) → length (or_nil (to16 ip)) ≡ 16
unfolding to16
length-to16 ip h = ground arith

-- The reply for a local address of 4 or 16 bytes without a zone has the address type of the bytes
-- that follow.
reply-IsReply :
    (addr : TcpAddr)
    → (length addr.ip ≡ 4) ⊎ (length addr.ip ≡ 16)
    → addr.zone ≡ unset
    → IsReply addr (reply addr)
unfolding reply zone_of address_type address_bytes field_size
reply-IsReply addr h ez = elim (Bool-cases (ip_equal addr.ip (or_nil (to4 addr.ip)))) [
  | inl e ↦ record {
    atype = 1;
    field = or_nil (to4 addr.ip);
    layout = rw (ez, e) refl;
    size = to4-some addr.ip h e;
  }
  | inr e ↦ record {
    atype = 4;
    field = or_nil (to16 addr.ip);
    layout = rw (ez, e) refl;
    size = length-to16 addr.ip h;
  }
]
