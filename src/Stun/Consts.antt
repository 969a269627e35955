-- ===== src/Stun/Consts.antt =====
-- p2p/go-stun/stun/const.go: the constants that the client uses, NATType and its descriptions.
use Prim.Native.String.{String}
use go_util.Prelude.{ℕ, List, [], ◌∷◌}

abbrev pub default_server_addr : String
default_server_addr = "stun.ekiga.net:3478"

abbrev pub default_software_name : String
default_software_name = "StunClient"

abbrev pub fingerprint : ℕ
fingerprint = 0x5354554e

-- The four bytes of magicCookie, as binary.BigEndian.PutUint32 writes them.
abbrev pub magic_cookie : List ℕ
magic_cookie = 0x21 ∷ 0x12 ∷ 0xa4 ∷ 0x42 ∷ []

-- NATType: an int, with these values by iota.
pub data NatType : Type 0 where
  nat_error nat_unknown nat_none nat_blocked nat_full nat_symmetric : NatType
  nat_restricted nat_port_restricted nat_symmetric_udp_firewall : NatType

-- natStr and NATType.String on the named values.
unfoldable pub nat_string : NatType → String
nat_string nat_error = "Test failed"
nat_string nat_unknown = "Unexpected response from the STUN server"
nat_string nat_none = "Not behind a NAT"
nat_string nat_blocked = "UDP is blocked"
nat_string nat_full = "Full cone NAT"
nat_string nat_symmetric = "Symmetric NAT"
nat_string nat_restricted = "Restricted NAT"
nat_string nat_port_restricted = "Port restricted NAT"
nat_string nat_symmetric_udp_firewall = "Symmetric UDP firewall"

abbrev pub attribute_family_ipv4 : ℕ
attribute_family_ipv4 = 0x01

abbrev pub attribute_family_ipv6 : ℕ
attribute_family_ipv6 = 0x02

abbrev pub attribute_mapped_address : ℕ
attribute_mapped_address = 0x0001

abbrev pub attribute_change_request : ℕ
attribute_change_request = 0x0003

abbrev pub attribute_source_address : ℕ
attribute_source_address = 0x0004

abbrev pub attribute_changed_address : ℕ
attribute_changed_address = 0x0005

abbrev pub attribute_xor_mapped_address : ℕ
attribute_xor_mapped_address = 0x0020

abbrev pub attribute_xor_mapped_address_exp : ℕ
attribute_xor_mapped_address_exp = 0x8020

abbrev pub attribute_software : ℕ
attribute_software = 0x8022

abbrev pub attribute_fingerprint : ℕ
attribute_fingerprint = 0x8028

abbrev pub attribute_other_address : ℕ
attribute_other_address = 0x802c

abbrev pub type_binding_request : ℕ
type_binding_request = 0x0001
