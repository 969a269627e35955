-- ===== src/Resolver/Register/Counts.antt =====
-- How many goroutines and calls there are.
use go_util.Prelude.{
  ℕ, suc, ◌+◌, ◌≤◌, ◌≡◌, refl, ap, ◌∙◌, true, false, List, ◌∷◌, ◌++◌, length, length-append, arith,
  Bool-cases, inl, inr,
}
use go_util.Resolver.Watch.{Entry}
use go_util.Resolver.Register.{
  Answers, Registry, nothing_registered, register, stored, removed, deletes, Move, request,
  deletion, reply, reply_taken, request_taken, Reach, start, registers, calls, lapses, moved,
}

-- The calls of UnRegister that wait for a reply are as many as the goroutines that owe one; and a
-- single call has returned only after a goroutine has ended.
pub record Counted (s : Registry) : Type 0 where
  pub owed : s.asked ≡ length s.deleting + s.answering
  pub single : s.asking + s.asked + s.returned ≤ 1 → s.returned ≤ s.ended

pub length-middle :
    (before after : List Entry) (e : Entry)
    → length (before ++ (e ∷ after)) ≡ suc (length (before ++ after))
length-middle before after e =
    omega (arith, length-append before (e ∷ after), length-append before after)

Move-Counted : {s t : Registry} → Counted s → Move s t → Counted t
unfolding deletes removed
Move-Counted c (request before after e n ask w) =
    let o = c.owed in
    let h = c.single in record { owed = omega (arith, o); single = λ k. h (omega (arith, k, ask)) }
Move-Counted c (deletion before after e true d) =
    let o = c.owed in
    let h = c.single in
    let len = ap length d ∙ length-middle before after e in
    record { owed = omega (arith, o, len); single = h }
Move-Counted c (deletion before after e false d) =
    let o = c.owed in
    let h = c.single in
    let len = ap length d ∙ length-middle before after e in
    record { owed = omega (arith, o, len); single = h }
Move-Counted c (reply answers n a q) =
    let o = c.owed in
    let h = c.single in
    record {
      owed = omega (arith, o, a, q);
      single = λ k. let l = h (omega (arith, k, q)) in omega (arith, l);
    }
Move-Counted c (reply_taken before after e answers a w) =
    let o = c.owed in
    let h = c.single in
    record { owed = omega (arith, o, a); single = λ k. let l = h k in omega (arith, l) }
Move-Counted c (request_taken n m ask q) =
    let o = c.owed in record { owed = o; single = λ k. absurd (omega (arith, k, q)) }

register-Counted :
    (a : Answers) (service address : List ℕ) (s : Registry)
    → Counted s
    → Counted (register a service address s).0
unfolding register stored
register-Counted a service address s c = elim (Bool-cases a.connects) [
  | inr h ↦ rw h c
  | inl h ↦ elim (Bool-cases a.grants) [
    | inr g ↦ rw (h, g) c
    | inl g ↦ elim (Bool-cases a.puts) [
      | inr p ↦ rw (h, g, p) c
      | inl p ↦ elim (Bool-cases a.keeps_alive) [
        | inr k ↦ rw (h, g, p, k) (record { owed = c.owed; single = c.single })
        | inl k ↦ rw (h, g, p, k) (record { owed = c.owed; single = c.single })
      ]
    ]
  ]
]

pub Reach-Counted : {s : Registry} → Reach s → Counted s
unfolding removed nothing_registered
Reach-Counted start = record { owed = refl; single = λ k. omega arith }
Reach-Counted (registers a service address r) =
    register-Counted a service address _ (Reach-Counted r)
Reach-Counted (calls r) =
    let c = Reach-Counted r in
    let h = c.single in record { owed = c.owed; single = λ k. h (omega (arith, k)) }
Reach-Counted (lapses key r) =
    let c = Reach-Counted r in record { owed = c.owed; single = c.single }
Reach-Counted (moved r m) = Move-Counted (Reach-Counted r) m
