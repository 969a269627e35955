-- ===== src/Resolver/Watch/Entries.antt =====
-- The dictionary is the one that the events describe.
use go_util.Prelude.{ℕ, ◌≡◌, refl, ap, ◌∙◌, false, Option, none, some, List, [], ◌∷◌, if◌then◌else◌}
use go_util.Prelude.Dict.{
  bytes_key, same_bytes, same_bytes_refl, lookup, assign, remove, lookup-remove, lookup-assign,
}
use go_util.Resolver.Watch.{
  Addresses, Entry, Event, put, delete, on_event, on_events, first_entries, listed,
}

-- The last event on a key: its value, or nothing where it was a deletion; `before` where none was.
unfoldable pub last_of : List ℕ → List Event → Option (List ℕ) → Option (List ℕ)
last_of key [] before = before
last_of key (put kv ∷ rest) before =
    last_of key rest (if same_bytes kv.key key then some kv.value else before)
last_of key (delete gone ∷ rest) before =
    last_of key rest (if same_bytes gone key then none else before)

-- After any events, the dictionary has under a key what the last event on that key says, and what it
-- had before where there was none.
pub lookup-on_events :
    (key : List ℕ) (events : List Event) (entries : Addresses)
    → lookup key (on_events events entries) ≡ last_of key events (lookup key entries)
unfolding on_events on_event last_of
lookup-on_events key [] entries = refl
lookup-on_events key (put kv ∷ rest) entries =
    lookup-on_events key rest (assign kv.key kv.value entries)
    ∙ ap (last_of key rest) (lookup-assign key kv.key kv.value entries)
lookup-on_events key (delete gone ∷ rest) entries =
    lookup-on_events key rest (remove gone entries)
    ∙ ap (last_of key rest) (lookup-remove key gone entries)

-- An address that Get lists under a key other than itself stays when that key is deleted.
listed_stays :
    (kv : Entry)
    → same_bytes kv.key kv.value ≡ false
    → lookup kv.value (on_event (delete kv.key) (first_entries (some (kv ∷ [])))) ≡ some kv.value
unfolding first_entries listed on_event
listed_stays kv h = rw (lookup-remove, h, lookup-assign, same_bytes_refl kv.value) refl
