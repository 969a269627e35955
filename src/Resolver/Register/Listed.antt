-- ===== src/Resolver/Register/Listed.antt =====
-- What a watch of Build lists, and what Register and its goroutines have put into etcd.
use go_util.Prelude.{
  ℕ, ◌+◌, ◌≤◌, ◌≡◌, refl, sym, ap, ◌∙◌, true, false, Option, none, some, List, [], ◌∷◌, ◌++◌,
  length, if◌then◌else◌, Bool-cases, inl, inr, All, arith,
}
use go_util.Prelude.Dict.{
  bytes_key, same_bytes, same_bytes_refl, lookup, assign, remove, lookup-remove, lookup-assign,
  remove_absent,
}
use go_util.Resolver.Watch.{Entry, put}
use go_util.Resolver.Watch.Entries.{last_of, lookup-on_events}
use go_util.Resolver.Register.{
  watched, key_of, entry_of, Answers, Registry, nothing_registered, told, register, stored, removed,
  deletes, Move, request, deletion, reply, reply_taken, request_taken, Reach, start, registers,
  calls, lapses, moved,
}
use go_util.Resolver.Register.Seen.{
  seen, listed_addresses, starts_with-key_of, last_of-seen, last_of-append,
}
use go_util.Resolver.Register.Counts.{Reach-Counted}

-- What etcd has told describes what it holds.
Told : Registry → Type 0
Told s = (key : List ℕ) → last_of key s.events none ≡ lookup key s.store

stored-Told : (e : Entry) (s : Registry) → Told s → Told (stored e s)
unfolding Told stored last_of
stored-Told e s h key =
    last_of-append key s.events (put e ∷ []) none
    ∙ ap (λ t. if same_bytes e.key key then some e.value else t) (h key)
    ∙ sym (lookup-assign key e.key e.value s.store)

removed-Told : (gone : List ℕ) (s : Registry) → Told s → Told (removed gone s)
unfolding Told removed told last_of
removed-Told gone s h key =
    last_of-append key s.events (told gone (lookup gone s.store)) none
    ∙ ap (λ t. last_of key (told gone (lookup gone s.store)) t) (h key)
    ∙ at (lookup gone s.store) refl
  where
    at :
        (found : Option (List ℕ))
        → lookup gone s.store ≡ found
        → last_of key (told gone found) (lookup key s.store) ≡ lookup key (remove gone s.store)
    at none e = ap (lookup key) (sym (remove_absent gone s.store e))
    at (some value) e = sym (lookup-remove key gone s.store)

-- No goroutine and no entry that was left behind has the key.
Free : List ℕ → List Entry → Type 0
Free key es = All (λ e. same_bytes e.key key ≡ false) es

unfoldable pub Unowned : List ℕ → Registry → Type 0
unfolding Free
Unowned key s = Free key s.waiting × Free key s.deleting × Free key s.left

Free-middle :
    (key : List ℕ) (before after : List Entry) (e : Entry)
    → same_bytes e.key key ≡ false
    → Free key (before ++ after)
    → Free key (before ++ (e ∷ after))
unfolding Free
Free-middle key [] after e d h = (d, h)
Free-middle key (x ∷ before) after e d h = (h.0, Free-middle key before after e d h.1)

Free-end :
    (key : List ℕ) (es : List Entry) (e : Entry)
    → Free key (es ++ e ∷ [])
    → (same_bytes e.key key ≡ false) × Free key es
unfolding Free
Free-end key [] e h = (h.0, h.1)
Free-end key (x ∷ es) e h = let rest = Free-end key es e h.1 in (rest.0, (h.0, rest.1))

-- etcd holds no entry with a key that no goroutine is to delete and that was not left behind.
record Kept (s : Registry) : Type 0 where
  told_all : Told s
  owned : (key : List ℕ) → Unowned key s → lookup key s.store ≡ none

removed_owned :
    (s : Registry) (gone key : List ℕ)
    → (same_bytes gone key ≡ false → lookup key s.store ≡ none)
    → lookup key (remove gone s.store) ≡ none
removed_owned s gone key h = elim (Bool-cases (same_bytes gone key)) [
  | inl d ↦ lookup-remove key gone s.store ∙ ap (λ t. if t then none else lookup key s.store) d
  | inr d ↦
      lookup-remove key gone s.store ∙ ap (λ t. if t then none else lookup key s.store) d ∙ h d
]

stored_owned :
    (s : Registry) (e : Entry) (key : List ℕ)
    → same_bytes e.key key ≡ false
    → lookup key s.store ≡ none
    → lookup key (assign e.key e.value s.store) ≡ none
stored_owned s e key other h =
    lookup-assign key e.key e.value s.store
    ∙ ap (λ t. if t then some e.value else lookup key s.store) other
    ∙ h

Move-Kept : {s t : Registry} → Kept s → Move s t → Kept t
unfolding Unowned Free deletes Told removed
Move-Kept k (request before after e n ask w) = record {
  told_all = k.told_all;
  owned = λ key u.
      let (free, (other, rest), gone) = u in
      k.owned key (rw w (Free-middle key before after e other free), rest, gone);
}
Move-Kept {s} k (deletion before after e true d) = record {
  told_all = removed-Told e.key s k.told_all;
  owned = λ key u.
      removed_owned s e.key key
        (λ other. k.owned key (u.0, rw d (Free-middle key before after e other u.1), u.2));
}
Move-Kept k (deletion before after e false d) = record {
  told_all = k.told_all;
  owned = λ key u.
      let (free, rest, (other, gone)) = u in
      k.owned key (free, rw d (Free-middle key before after e other rest), gone);
}
Move-Kept k (reply answers n a q) = record { told_all = k.told_all; owned = k.owned }
Move-Kept k (reply_taken before after e answers a w) = record {
  told_all = k.told_all;
  owned = λ key u.
      let (free, (other, rest), gone) = u in
      k.owned key (rw w (Free-middle key before after e other free), rest, gone);
}
Move-Kept k (request_taken n m ask q) = record { told_all = k.told_all; owned = k.owned }

register-Kept :
    (a : Answers) (service address : List ℕ) (s : Registry)
    → Kept s
    → Kept (register a service address s).0
unfolding register stored Unowned Free Told
register-Kept a service address s k = elim (Bool-cases a.connects) [
  | inr h ↦ rw h k
  | inl h ↦ elim (Bool-cases a.grants) [
    | inr g ↦ rw (h, g) k
    | inl g ↦ elim (Bool-cases a.puts) [
      | inr p ↦ rw (h, g, p) k
      | inl p ↦ elim (Bool-cases a.keeps_alive) [
        | inr n ↦
            rw (h, g, p, n)
              (record {
                told_all = stored-Told e s k.told_all;
                owned = λ key u.
                    let (free, rest, (other, gone)) = u in
                    stored_owned s e key other (k.owned key (free, rest, gone));
              })
        | inl n ↦
            rw (h, g, p, n)
              (record {
                told_all = stored-Told e s k.told_all;
                owned = λ key u.
                    let (free, rest, gone) = u in
                    let (other, before) = Free-end key s.waiting e free in
                    stored_owned s e key other (k.owned key (before, rest, gone));
              })
      ]
    ]
  ]
]
  where
    e : Entry
    e = entry_of service address

Reach-Kept : {s : Registry} → Reach s → Kept s
unfolding Told removed nothing_registered lookup last_of Unowned
Reach-Kept start = record { told_all = λ key. refl; owned = λ key u. refl }
Reach-Kept (registers a service address r) = register-Kept a service address _ (Reach-Kept r)
Reach-Kept (calls r) = let k = Reach-Kept r in record { told_all = k.told_all; owned = k.owned }
Reach-Kept (lapses {s} gone r) =
    let k = Reach-Kept r in
    record {
      told_all = removed-Told gone s k.told_all;
      owned = λ key u. removed_owned s gone key (λ other. k.owned key u);
    }
Reach-Kept (moved r m) = Move-Kept (Reach-Kept r) m

listed-store :
    {s : Registry}
    → Reach s
    → (service address : List ℕ)
    → lookup (key_of service address) (listed_addresses service s.events)
      ≡ lookup (key_of service address) s.store
unfolding listed_addresses Told lookup
listed-store {s} r service address =
    let key = key_of service address in
    let k = Reach-Kept r in
    lookup-on_events key (seen (watched service) s.events) []
    ∙ last_of-seen (watched service) key s.events none (starts_with-key_of service address)
    ∙ k.told_all key

-- When Register returns no error, the resolver of its service has the address under its key.
register-listed :
    {s : Registry} (a : Answers) (service address : List ℕ)
    → Reach s
    → (register a service address s).1 ≡ none
    → lookup
        (key_of service address)
        (listed_addresses service (register a service address s).0.events)
      ≡ some address
unfolding register stored
register-listed {s} a service address r ok =
    listed-store (registers a service address r) service address ∙ elim (Bool-cases a.connects) [
      | inr h ↦ absurd (cc (rw h at ok))
      | inl h ↦ elim (Bool-cases a.grants) [
        | inr g ↦ absurd (cc (rw (h, g) at ok))
        | inl g ↦ elim (Bool-cases a.puts) [
          | inr p ↦ absurd (cc (rw (h, g, p) at ok))
          | inl p ↦ elim (Bool-cases a.keeps_alive) [
            | inr n ↦ absurd (cc (rw (h, g, p, n) at ok))
            | inl n ↦ rw (h, g, p, n) found
          ]
        ]
      ]
    ]
  where
    key : List ℕ
    key = key_of service address

    found : lookup key (assign key address s.store) ≡ some address
    found =
        lookup-assign key key address s.store
        ∙ ap (λ t. if t then some address else lookup key s.store) (same_bytes_refl key)

-- A resolver has an address under its key only where a goroutine is still to delete it, or where it
-- was left in etcd: by a Register that KeepAlive failed, or by a Delete that failed.
Unowned-unlisted :
    {s : Registry} (service address : List ℕ)
    → Reach s
    → Unowned (key_of service address) s
    → lookup (key_of service address) (listed_addresses service s.events) ≡ none
Unowned-unlisted service address r u =
    let k = Reach-Kept r in listed-store r service address ∙ k.owned (key_of service address) u

nothing-Free : (key : List ℕ) (es : List Entry) → length es ≡ 0 → Free key es
unfolding Free
nothing-Free key [] h = tt
nothing-Free key (e ∷ es) h = absurd (omega (arith, h))

-- One server registers at most, UnRegister is called once, and nothing is left behind in etcd: when
-- that call has returned, no resolver has an address of the server any more.
pub unregister-unlisted :
    {s : Registry} (service address : List ℕ)
    → Reach s
    → length s.waiting + length s.deleting + s.answering + s.ended ≤ 1
    → s.asking + s.asked + s.returned ≤ 1
    → s.left ≡ []
    → s.returned ≡ 1
    → lookup (key_of service address) (listed_addresses service s.events) ≡ none
unfolding Unowned
unregister-unlisted service address r servers one kept done =
    let c = Reach-Counted r in
    let ended = c.single one in
    Unowned-unlisted service address r (
      nothing-Free _ _ (omega (arith, ended, servers, done)),
      nothing-Free _ _ (omega (arith, ended, servers, done)),
      nothing-Free _ _ (ap length kept),
    )
