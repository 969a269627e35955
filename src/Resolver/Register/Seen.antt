-- ===== src/Resolver/Register/Seen.antt =====
-- What a watch of Build is told.
use go_util.Prelude.{
  ℕ, ◌≡◌, refl, sym, ap, ◌∙◌, Bool, true, false, ◌&&◌, Option, List, [], ◌∷◌, ◌++◌, append_assoc,
  if◌then◌else◌, Bool-cases, inl, inr, ◌==◌, ==_refl,
}
use go_util.Prelude.Dict.{bytes_key, same_bytes, same_bytes→eq}
use go_util.Resolver.Watch.{Addresses, Event, put, delete, on_events}
use go_util.Resolver.Watch.Entries.{last_of}
use go_util.Resolver.Register.{schema, watched, key_of}

-- The events that a watch with a prefix is told.
unfoldable pub starts_with : List ℕ → List ℕ → Bool
starts_with [] key = true
starts_with (c ∷ prefix) [] = false
starts_with (c ∷ prefix) (d ∷ key) = c == d && starts_with prefix key

abbrev pub key_at : Event → List ℕ
key_at (put e) = e.key
key_at (delete key) = key

unfoldable pub seen : List ℕ → List Event → List Event
seen prefix [] = []
seen prefix (e ∷ events) =
    let rest = seen prefix events in if starts_with prefix (key_at e) then e ∷ rest else rest

-- The addresses that the watch of a service's resolver has after the events.
unfoldable pub listed_addresses : List ℕ → List Event → Addresses
listed_addresses service events = on_events (seen (watched service) events) []

starts_with-append : (prefix rest : List ℕ) → starts_with prefix (prefix ++ rest) ≡ true
unfolding starts_with
starts_with-append [] rest = refl
starts_with-append (c ∷ prefix) rest = rw (==_refl c) (starts_with-append prefix rest)

pub starts_with-key_of :
    (service address : List ℕ) → starts_with (watched service) (key_of service address) ≡ true
unfolding watched key_of
starts_with-key_of service address =
    ap (starts_with (watched service)) (sym same) ∙ starts_with-append (watched service) address
  where
    same : watched service ++ address ≡ key_of service address
    same = ap (λ t. 47 ∷ schema ++ 47 ∷ t) (append_assoc service (47 ∷ []) address)

-- A watch loses nothing of the keys with its prefix.
pub last_of-seen :
    (prefix key : List ℕ) (events : List Event) (before : Option (List ℕ))
    → starts_with prefix key ≡ true
    → last_of key (seen prefix events) before ≡ last_of key events before
unfolding last_of seen
last_of-seen prefix key [] before h = refl
last_of-seen prefix key (e ∷ events) before h = elim (Bool-cases (starts_with prefix (key_at e))) [
  | inl s ↦ rw s (kept (λ b. last_of-seen prefix key events b h) e)
  | inr s ↦ rw s (last_of-seen prefix key events before h ∙ dropped e s)
]
  where
    kept :
        ((b : Option (List ℕ)) → last_of key (seen prefix events) b ≡ last_of key events b)
        → (e : Event)
        → last_of key (e ∷ seen prefix events) before ≡ last_of key (e ∷ events) before
    kept later (put kv) = later _
    kept later (delete gone) = later _

    other : (k : List ℕ) → starts_with prefix k ≡ false → same_bytes k key ≡ false
    other k s = elim (Bool-cases (same_bytes k key)) [
      | inr d ↦ d
      | inl d ↦ absurd (cc (ap (starts_with prefix) (same_bytes→eq k key d), s, h))
    ]

    dropped :
        (e : Event)
        → starts_with prefix (key_at e) ≡ false
        → last_of key events before ≡ last_of key (e ∷ events) before
    dropped (put kv) s = rw (other kv.key s) refl
    dropped (delete gone) s = rw (other gone s) refl

pub last_of-append :
    (key : List ℕ) (first rest : List Event) (before : Option (List ℕ))
    → last_of key (first ++ rest) before ≡ last_of key rest (last_of key first before)
unfolding last_of
last_of-append key [] rest before = refl
last_of-append key (put kv ∷ first) rest before = last_of-append key first rest _
last_of-append key (delete gone ∷ first) rest before = last_of-append key first rest _
