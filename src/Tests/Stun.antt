-- ===== src/Tests/Stun.antt =====
-- p2p/go-stun/stun: bytes, attributes and packets.
use go_util.Prelude.{
  ℕ, ◌+◌, ◌*◌, ◌≡◌, refl, inl, some, false, none, List, [], ◌∷◌, ◌++◌, length, replicate, ok, err,
  panic, arith,
}
use Prim.Native.Nat.{bit_xor}
use go_util.Wire.Slices.{u16, full, put_uint16}
use go_util.Stun.Consts.{attribute_family_ipv4}
use go_util.Stun.Library.{Library, too_short}
use go_util.Stun.Align.{align}
use go_util.Stun.Attribute.{Attribute, xor_addr}
use go_util.Stun.Attribute.Shape.{IsAttribute}
use go_util.Stun.Attribute.Addr.{xor_layout, xor_addr-layout}
use go_util.Stun.Packet.{Packet, attribute_bytes, attributes_bytes, bytes}
use go_util.Stun.Packet.Parse.{new_packet_from_bytes}
use go_util.Stun.Packet.Shape.{IsPacket}
use go_util.Stun.Packet.RoundTrip.{Reads, new_packet_from_bytes-bytes}
use go_util.Stun.Packet.Total.{
  IsParsed, new_packet_from_bytes-IsParsed, new_packet_from_bytes_panics,
}

-- A library that knows two hosts.
abbrev lib : Library
lib = record {
  ip_string = λ ip. elim ip [ [] ↦ "" | b ∷ _ ↦ "10.0.0.1" ];
  to4 = λ ip. some ip;
  ip_equal = λ a b. false;
  is_unspecified = λ ip. false;
  resolve_udp_addr = λ s. none;
  join_host_port = λ host port. host;
  interface_addrs = none;
  checksum_ieee = length;
}

abbrev change_both : Attribute
change_both = record { types = 3; size = 4; value = full (0 ∷ 0 ∷ 0 ∷ 6 ∷ []) }

change_both-IsAttribute : IsAttribute change_both
change_both-IsAttribute = omega arith

abbrev sample : Packet
sample = record { types = 1; size = 8; trans_id = replicate 16 7; attributes = change_both ∷ [] }

sample-IsPacket : IsPacket sample
unfolding attributes_bytes attribute_bytes
sample-IsPacket = record {
  types_fit = omega arith;
  size_fits = omega arith;
  trans_id_full = refl;
  size_exact = refl;
  attributes_ok = (change_both-IsAttribute, tt);
}

-- The cases of TestAlign at the end of the range, and one that it leaves out.
align_runs : (align 65529 ≡ 65532) × (align 65532 ≡ 65532) × (align 5 ≡ 8)
unfolding align
align_runs = (refl, refl, refl)

-- The cases of TestNewPacketFromBytes.
parse_23 : new_packet_from_bytes (full (replicate 23 0)) ≡ err too_short
unfolding new_packet_from_bytes
parse_23 = refl

new_packet_from_bytes-bytes_example :
    (q : Packet) × (new_packet_from_bytes (record { content = bytes sample; spare = 9 ∷ [] })
      ≡ ok q)
    × Reads sample q
    × (q.size ≡ u16 (8 + 8))
new_packet_from_bytes-bytes_example =
    new_packet_from_bytes-bytes sample (9 ∷ []) sample-IsPacket (omega arith) (omega arith)

new_packet_from_bytes-IsParsed_example : IsParsed (new_packet_from_bytes (full (replicate 40 0)))
new_packet_from_bytes-IsParsed_example =
    new_packet_from_bytes-IsParsed (full (replicate 40 0)) (omega arith)

-- A datagram of 24 bytes whose one attribute claims 65532 bytes.
abbrev hostile : List ℕ
hostile = replicate 20 0 ++ (put_uint16 32 ++ (put_uint16 65532 ++ []))

new_packet_from_bytes_panics_example : new_packet_from_bytes (full hostile) ≡ panic
new_packet_from_bytes_panics_example =
    new_packet_from_bytes_panics (full hostile) (replicate 20 0) [] 32 65532 refl refl (omega arith)
      (omega arith) (omega arith) (omega arith) (omega arith)

xor_addr-layout_example :
    xor_addr lib
      (record {
        types = 32;
        size = 8;
        value = full (
            xor_layout 0 attribute_family_ipv4
              (bit_xor 3478 (33 * 256 + 18))
              (10 ∷ 0 ∷ 0 ∷ 1 ∷ [])
              (33 ∷ 18 ∷ replicate 14 7));
      })
      (33 ∷ 18 ∷ replicate 14 7)
    ≡ ok (record { family = 1; ip = "10.0.0.1"; port = 3478 })
xor_addr-layout_example =
    xor_addr-layout lib 32 8 0 attribute_family_ipv4 3478 (10 ∷ 0 ∷ 0 ∷ 1 ∷ []) [] 33 18
      (replicate 14 7) (inl (refl, refl)) (omega arith) (omega arith) refl
