-- ===== src/Rpc/Pools.antt =====
-- typePools of reflect/typeReflectCall.go: a pool of values for every type. Values are those of a
-- parameter; `fresh` is reflect.New of the type, or of the type a pointer points to.
pub mod Laws
use go_util.Prelude.{
  ℕ, Bool, true, false, Option, none, some, List, [], ◌∷◌, if◌then◌else◌, Outcome, ok, panic,
}
use go_util.Prelude.Dict.{Dict, lookup, assign}
use go_util.Rpc.Types.{GoType, type_key}

abbrev pub Pools : Type 0 → Type 0
Pools Value = Dict GoType (List Value)

-- Init: an empty pool, in place of one that was there.
unfoldable pub init : {Value : Type 0} → GoType → Pools Value → Pools Value
init t pools = assign t [] pools

module _ {Value : Type 0} (fresh : GoType → Value) (reset : Value → Value) where
  -- The value that sync.Pool gives is one that was put there, here the last, or a new one.
  unfoldable pub get_from :
      GoType → Option (List Value) → Pools Value → Option (Value × Pools Value)
  get_from t none pools = none
  get_from t (some []) pools = some (fresh t, pools)
  get_from t (some (x ∷ xs)) pools = some (x, assign t xs pools)

  -- Get; `none` is the panic of a pool that is not there.
  unfoldable pub get : Bool → GoType → Pools Value → Option (Value × Pools Value)
  get use_pool t pools =
      if use_pool then get_from t (lookup t pools) pools else some (fresh t, pools)

  unfoldable pub put_in : GoType → Value → Option (List Value) → Pools Value → Option (Pools Value)
  put_in t x none pools = none
  put_in t x (some xs) pools = some (assign t (x ∷ xs) pools)

  -- Put; `reset` is the value's Reset, where it has one.
  unfoldable pub put : Bool → GoType → Value → Pools Value → Option (Pools Value)
  put use_pool t x pools =
      if use_pool then put_in t (reset x) (lookup t pools) pools else some pools
