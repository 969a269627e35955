-- ===== src/Stun/Send/Requests.antt =====
-- The binding request that sendBindingReq of p2p/go-stun/stun/net.go builds.
use go_util.Prelude.{
  ℕ, ◌+◌, ◌-◌, ◌%◌, ◌≤◌, ◌<◌, ◌≡◌, refl, Bool, ◌||◌, List, [], ◌∷◌, ◌++◌, length, Bool-cases, inl,
  inr, arith,
}
use go_util.Stun.Align.Laws.{align-eq_self}
use go_util.Stun.Library.{Library}
use go_util.Stun.Attribute.{Attribute, new_software_attribute, new_change_req_attribute}
use go_util.Stun.Attribute.Shape.{
  IsAttribute, new_software_attribute-IsAttribute, new_change_req_attribute-IsAttribute,
}
use go_util.Stun.Packet.{Packet, add_attribute, new_fingerprint_attribute}
use go_util.Stun.Packet.Shape.{
  IsPacket, add_attribute-IsPacket, new_fingerprint_attribute-IsAttribute,
}
use go_util.Stun.Send.{add_change_request, add_fingerprint, binding_request}

-- How far `addAttribute` moves the length field.
add_attribute-size :
    (v : Packet) (a : Attribute)
    → IsAttribute a
    → v.size + a.size + 4 < 65536
    → (add_attribute v a).size ≡ v.size + a.size + 4
unfolding add_attribute
add_attribute-size v a h fits = omega (arith, align-eq_self a.size h.size_fits h.size_aligned)

module _ (lib : Library) where
  add_change_request-IsPacket :
      (change_ip change_port : Bool) (v : Packet)
      → IsPacket v
      → v.size + 8 < 65536
      → IsPacket (add_change_request change_ip change_port v)
        × ((add_change_request change_ip change_port v).size ≤ v.size + 8)
  unfolding add_change_request
  add_change_request-IsPacket change_ip change_port v h fits =
      elim (Bool-cases (change_ip || change_port)) [
        | inl asked ↦ rw asked (
          add_attribute-IsPacket v _ h made.0 (omega (arith, made.1)),
          omega (arith, made.1, add_attribute-size v _ made.0 (omega (arith, made.1))),
        )
        | inr not_asked ↦ rw not_asked (h, omega arith)
      ]
    where
      made :
          IsAttribute (new_change_req_attribute change_ip change_port)
          × ((new_change_req_attribute change_ip change_port).size ≡ 4)
      made = new_change_req_attribute-IsAttribute change_ip change_port

  -- The fingerprint's packet differs from the finished one by the last attribute only.
  Covers : Packet → Packet → Type 0
  Covers covered request =
      (request.attributes ≡ covered.attributes ++ (new_fingerprint_attribute lib covered ∷ []))
      × (covered.types ≡ request.types)
      × (covered.trans_id ≡ request.trans_id)
      × (covered.size ≡ request.size)

  -- Counting the fingerprint in and out leaves the length field as it was.
  uncounted : Packet → Packet
  uncounted v = record v { size = ((v.size + 8) % 65536 + 65536 - 8) % 65536 }

  uncounted-IsPacket : (v : Packet) → IsPacket v → v.size + 8 < 65536 → IsPacket (uncounted v)
  unfolding uncounted
  uncounted-IsPacket v h fits = record {
    types_fit = h.types_fit;
    size_fits = omega arith;
    trans_id_full = h.trans_id_full;
    size_exact = omega (arith, h.size_exact);
    attributes_ok = h.attributes_ok;
  }

  add_fingerprint-IsPacket :
      (v : Packet)
      → IsPacket v
      → v.size + 8 < 65536
      → IsPacket (add_fingerprint lib v)
        × ((covered : Packet) × Covers covered (add_fingerprint lib v))
  unfolding add_fingerprint uncounted Covers
  add_fingerprint-IsPacket v h fits = (
    add_attribute-IsPacket _ _ (uncounted-IsPacket v h fits) made.0 (omega (arith, made.1)),
    (
      record v { size = (v.size + 8) % 65536 },
      (
        unfold add_attribute in refl,
        unfold add_attribute in refl,
        unfold add_attribute in refl,
        omega (arith, made.1, add_attribute-size (uncounted v) _ made.0 (omega (arith, made.1))),
      ),
    ),
  )
    where
      made :
          IsAttribute (new_fingerprint_attribute lib (record v { size = (v.size + 8) % 65536 }))
          × ((new_fingerprint_attribute lib (record v { size = (v.size + 8) % 65536 })).size ≡ 4)
      made = new_fingerprint_attribute-IsAttribute lib _

  binding_request_lem :
      (software_name : List ℕ) (change_ip change_port : Bool) (pkt : Packet)
      → IsPacket pkt
      → pkt.size + length software_name + 24 < 65536
      → IsPacket (binding_request lib software_name change_ip change_port pkt)
        × ((covered : Packet) × Covers covered
              (binding_request lib software_name change_ip change_port pkt))
  unfolding binding_request
  binding_request_lem software_name change_ip change_port pkt h fits =
      add_fingerprint-IsPacket _ changed.0 (omega (arith, changed.1, named_size, made.1))
    where
      typed : Packet
      typed = record pkt { types = 1 }

      typed-IsPacket : IsPacket typed
      typed-IsPacket = record {
        types_fit = omega arith;
        size_fits = h.size_fits;
        trans_id_full = h.trans_id_full;
        size_exact = h.size_exact;
        attributes_ok = h.attributes_ok;
      }

      made :
          IsAttribute (new_software_attribute software_name)
          × ((new_software_attribute software_name).size ≤ length software_name + 3)
      made = new_software_attribute-IsAttribute software_name (omega arith)

      named : Packet
      named = add_attribute typed (new_software_attribute software_name)

      named_size : named.size ≡ pkt.size + (new_software_attribute software_name).size + 4
      named_size = add_attribute-size typed _ made.0 (omega (arith, made.1))

      changed :
          IsPacket (add_change_request change_ip change_port named)
          × ((add_change_request change_ip change_port named).size ≤ named.size + 8)
      changed =
          add_change_request-IsPacket change_ip change_port named
            (add_attribute-IsPacket typed _ typed-IsPacket made.0 (omega (arith, made.1)))
            (omega (arith, named_size, made.1))

  -- The request is a packet whose length fields are exact, whatever is asked for, if the software's
  -- name leaves room for the other attributes.
  pub binding_request-IsPacket :
      (software_name : List ℕ) (change_ip change_port : Bool) (pkt : Packet)
      → IsPacket pkt
      → pkt.size + length software_name + 24 < 65536
      → IsPacket (binding_request lib software_name change_ip change_port pkt)
  binding_request-IsPacket software_name change_ip change_port pkt h fits =
      (binding_request_lem software_name change_ip change_port pkt h fits).0

  -- The last attribute is the fingerprint of a packet that has all other attributes, and in its
  -- header the type, the transaction id and the length field of the finished request.
  pub binding_request_fingerprint :
      (software_name : List ℕ) (change_ip change_port : Bool) (pkt : Packet)
      → IsPacket pkt
      → pkt.size + length software_name + 24 < 65536
      → let request = binding_request lib software_name change_ip change_port pkt in
        (covered : Packet) × (request.attributes
          ≡ covered.attributes ++ (new_fingerprint_attribute lib covered ∷ []))
        × (covered.types ≡ request.types)
        × (covered.trans_id ≡ request.trans_id)
        × (covered.size ≡ request.size)
  unfolding Covers
  binding_request_fingerprint software_name change_ip change_port pkt h fits =
      let (covered, c) = (binding_request_lem software_name change_ip change_port pkt h fits).1 in
      (covered, c.0, c.1, c.2, c.3)
