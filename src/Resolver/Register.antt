-- ===== src/Resolver/Register.antt =====
-- grpc-lb/etcdv3/register.go: Register, the goroutine that it starts, and UnRegister. What etcd
-- answers is an argument, and so is the address that net.JoinHostPort makes. Every operation on the channel Deregister,
-- which is unbuffered and which all of them share, is a step.
pub mod Counts
pub mod Seen
pub mod Listed
pub mod Progress
use go_util.Prelude.{
  ℕ, suc, ◌≡◌, Bool, true, false, Option, none, some, List, [], ◌∷◌, ◌++◌, if◌then◌else◌,
}
use go_util.Prelude.Dict.{bytes_key, lookup, assign, remove}
use go_util.Resolver.Watch.{Addresses, Entry, Event, put, delete}

-- "etcdv3_resolver"
abbrev pub schema : List ℕ
schema = 101 ∷ 116 ∷ 99 ∷ 100 ∷ 118 ∷ 51 ∷ 95 ∷ 114 ∷ 101 ∷ 115 ∷ 111 ∷ 108 ∷ 118 ∷ 101 ∷ 114 ∷ []

-- The prefix that Build watches.
unfoldable pub watched : List ℕ → List ℕ
watched service = 47 ∷ schema ++ 47 ∷ service ++ 47 ∷ []

-- serviceKey
unfoldable pub key_of : List ℕ → List ℕ → List ℕ
key_of service value = 47 ∷ schema ++ 47 ∷ service ++ 47 ∷ value

abbrev pub entry_of : List ℕ → List ℕ → Entry
entry_of service address = record { key = key_of service address; value = address }

-- Which calls of etcd succeed.
pub record Answers : Type 0 where
  pub connects : Bool
  pub grants : Bool
  pub puts : Bool
  pub keeps_alive : Bool

pub data RegisterError : Type 0 where
  no_client : RegisterError
  no_lease : RegisterError
  not_put : RegisterError
  not_kept : RegisterError

-- The goroutines that Register started, by the place where they are, the calls of UnRegister, and
-- etcd: what it holds and what it has told a watch.
pub record Registry : Type 0 where
  pub store : Addresses
  pub events : List Event
  pub waiting : List Entry  -- before the first receive
  pub deleting : List Entry  -- before Delete
  pub answering : ℕ  -- before the send
  pub ended : ℕ
  pub left : List Entry  -- put into etcd, with no goroutine that is still to delete it
  pub asking : ℕ  -- calls of UnRegister before the send
  pub asked : ℕ  -- before the receive
  pub returned : ℕ

unfoldable pub nothing_registered : Registry
nothing_registered = record {
  store = [];
  events = [];
  waiting = [];
  deleting = [];
  answering = 0;
  ended = 0;
  left = [];
  asking = 0;
  asked = 0;
  returned = 0;
}

unfoldable pub stored : Entry → Registry → Registry
stored e s = record s { store = assign e.key e.value s.store; events = s.events ++ put e ∷ [] }

-- What a watch is told when a key goes, which is nothing where it is not there.
unfoldable pub told : List ℕ → Option (List ℕ) → List Event
told key none = []
told key (some value) = delete key ∷ []

unfoldable pub removed : List ℕ → Registry → Registry
removed key s = record s {
  store = remove key s.store;
  events = s.events ++ told key (lookup key s.store);
}

unfoldable pub register : Answers → List ℕ → List ℕ → Registry → Registry × Option RegisterError
register a service address s =
    let e = entry_of service address in
    if a.connects
    then if a.grants
      then if a.puts
        then if a.keeps_alive
          then (record (stored e s) { waiting = s.waiting ++ e ∷ [] }, none)
          else (record (stored e s) { left = e ∷ s.left }, some not_kept)
        else (s, some not_put)
      else (s, some no_lease)
    else (s, some no_client)

-- Delete, whose error is not looked at.
unfoldable pub deletes : Bool → Entry → Registry → Registry
deletes true e s = removed e.key s
deletes false e s = record s { left = e ∷ s.left }

-- The goroutines of Register, and UnRegister. Go does not say which of several that wait comes next.
pub data Move : Registry → Registry → Type 0 where
  request :
      {s : Registry} (before after : List Entry) (e : Entry) (calls : ℕ)
      → s.asking ≡ suc calls
      → s.waiting ≡ before ++ (e ∷ after)
      → Move s (record s {
        asking = calls;
        asked = suc s.asked;
        waiting = before ++ after;
        deleting = e ∷ s.deleting;
      })
  deletion :
      {s : Registry} (before after : List Entry) (e : Entry) (succeeds : Bool)
      → s.deleting ≡ before ++ (e ∷ after)
      → Move s (
          deletes succeeds e (record s { deleting = before ++ after; answering = suc s.answering }))
  reply :
      {s : Registry} (answers calls : ℕ)
      → s.answering ≡ suc answers
      → s.asked ≡ suc calls
      → Move s (record s {
        answering = answers;
        asked = calls;
        ended = suc s.ended;
        returned = suc s.returned;
      })
  -- The reply of one goroutine reaches another one that waits for a request.
  reply_taken :
      {s : Registry} (before after : List Entry) (e : Entry) (answers : ℕ)
      → s.answering ≡ suc answers
      → s.waiting ≡ before ++ (e ∷ after)
      → Move s (record s {
        answering = answers;
        ended = suc s.ended;
        waiting = before ++ after;
        deleting = e ∷ s.deleting;
      })
  -- The request of one call reaches another one that waits for its reply.
  request_taken :
      {s : Registry} (calls others : ℕ)
      → s.asking ≡ suc calls
      → s.asked ≡ suc others
      → Move s (record s { asking = calls; returned = suc s.returned })

-- What can be reached from outside: registrations, calls of UnRegister, and leases that lapse.
pub data Reach : Registry → Type 0 where
  start : Reach nothing_registered
  registers :
      {s : Registry} (a : Answers) (service address : List ℕ)
      → Reach s
      → Reach (register a service address s).0
  calls : {s : Registry} → Reach s → Reach (record s { asking = suc s.asking })
  lapses : {s : Registry} (key : List ℕ) → Reach s → Reach (removed key s)
  moved : {s t : Registry} → Reach s → Move s t → Reach t

pub data Moves : ℕ → Registry → Registry → Type 0 where
  none_left : {s : Registry} → Moves 0 s s
  and_move : {n : ℕ} {s t u : Registry} → Moves n s t → Move t u → Moves (suc n) s u
