-- ===== src/Resolver/Watch.antt =====
-- The loop of watch in grpc-lb/etcdv3/resolver.go. Keys and values are their bytes; what etcd's Get
-- and Watch bring is an argument.
pub mod Entries
use go_util.Prelude.{ℕ, Option, none, some, List, [], ◌∷◌, map}
use go_util.Prelude.Dict.{Dict, bytes_key, assign, remove}

-- A key with its value in etcd.
pub record Entry : Type 0 where
  pub key : List ℕ
  pub value : List ℕ

pub data Event : Type 0 where
  put : Entry → Event
  delete : List ℕ → Event  -- the key of PrevKv

-- addrDict
abbrev pub Addresses : Type 0
Addresses = Dict (List ℕ) (List ℕ)

-- The entries that Get lists are kept under their values.
unfoldable pub listed : List Entry → Addresses → Addresses
listed [] entries = entries
listed (kv ∷ rest) entries = listed rest (assign kv.value kv.value entries)

unfoldable pub on_event : Event → Addresses → Addresses
on_event (put kv) entries = assign kv.key kv.value entries
on_event (delete key) entries = remove key entries

unfoldable pub on_events : List Event → Addresses → Addresses
on_events [] entries = entries
on_events (e ∷ rest) entries = on_events rest (on_event e entries)

abbrev pub addresses : Addresses → List (List ℕ)
addresses entries = map (λ e. e.1) entries

-- The lists of addresses that UpdateState is given, one for each response of the watch.
unfoldable pub updates : List (List Event) → Addresses → List (List (List ℕ))
updates [] entries = []
updates (events ∷ rest) entries =
    let after = on_events events entries in addresses after ∷ updates rest after

-- `none` is an error of Get, after which the watch starts with nothing.
unfoldable pub first_entries : Option (List Entry) → Addresses
first_entries none = []
first_entries (some kvs) = listed kvs []

unfoldable pub watch : Option (List Entry) → List (List Event) → List (List (List ℕ))
watch got responses = addresses (first_entries got) ∷ updates responses (first_entries got)
