-- ===== src/Stun/Packet/Termination.antt =====
-- Looking an address up in a packet ends.
use go_util.Prelude.{ℕ, ◌==◌, Option, none, some, List, [], ◌∷◌}
use go_util.Stun.Ends.{Ends, Ends-ok, Ends-bind, Ends-if}
use go_util.Stun.Library.{Library, Go}
use go_util.Stun.Host.{Host}
use go_util.Stun.Attribute.{Attribute, raw_addr, xor_addr}
use go_util.Stun.Consts.{attribute_xor_mapped_address}
use go_util.Stun.Attribute.Termination.{raw_addr-Ends, xor_addr-Ends}
use go_util.Stun.Packet.{
  Packet, first_raw_addr, first_xor_addr, or_else, get_raw_addr, get_xor_addr, get_xor_mapped_addr,
}

module _ (lib : Library) where
  first_raw_addr-Ends :
      (as' : List Attribute) (attribute : ℕ) → Ends (first_raw_addr lib as' attribute)
  unfolding first_raw_addr
  first_raw_addr-Ends [] attribute = Ends-ok _
  first_raw_addr-Ends (a ∷ rest) attribute =
      Ends-if (a.types == attribute)
        (Ends-bind (raw_addr lib a) (raw_addr-Ends lib a) (λ host. Ends-ok _))
        (first_raw_addr-Ends rest attribute)

  first_xor_addr-Ends :
      (as' : List Attribute) (trans_id : List ℕ) (attribute : ℕ)
      → Ends (first_xor_addr lib as' trans_id attribute)
  unfolding first_xor_addr
  first_xor_addr-Ends [] trans_id attribute = Ends-ok _
  first_xor_addr-Ends (a ∷ rest) trans_id attribute =
      Ends-if (a.types == attribute)
        (Ends-bind (xor_addr lib a trans_id) (xor_addr-Ends lib a trans_id) (λ host. Ends-ok _))
        (first_xor_addr-Ends rest trans_id attribute)

  pub get_raw_addr-Ends : (v : Packet) (attribute : ℕ) → Ends (get_raw_addr lib v attribute)
  unfolding get_raw_addr
  get_raw_addr-Ends v attribute = first_raw_addr-Ends v.attributes attribute

  or_else-Ends : (o : Option Host) (r : Go (Option Host)) → Ends r → Ends (or_else lib o r)
  unfolding or_else
  or_else-Ends none r h = h
  or_else-Ends (some host) r h = Ends-ok _

  pub get_xor_mapped_addr-Ends : (v : Packet) → Ends (get_xor_mapped_addr lib v)
  unfolding get_xor_mapped_addr get_xor_addr
  get_xor_mapped_addr-Ends v =
      Ends-bind (first_xor_addr lib v.attributes v.trans_id attribute_xor_mapped_address)
        (first_xor_addr-Ends v.attributes v.trans_id _)
        λ addr. or_else-Ends addr _ (first_xor_addr-Ends v.attributes v.trans_id _)
