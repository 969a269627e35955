-- ===== src/Rpc/Pools/Laws.antt =====
-- A value that is put into a pool comes out again.
use go_util.Prelude.{◌≡◌, refl, true, some, List, ◌∷◌, ◌∙◌}
use go_util.Prelude.Dict.{lookup, assign, lookup-assign}
use go_util.Rpc.Types.{GoType, type_key, same_type_refl}
use go_util.Rpc.Pools.{Pools, get, get_from, put, put_in}

module _ {Value : Type 0} (fresh : GoType → Value) (reset : Value → Value) where
  lookup-assign_same :
      (t : GoType) (xs : List Value) (pools : Pools Value) → lookup t (assign t xs pools) ≡ some xs
  lookup-assign_same t xs pools = lookup-assign t t xs pools ∙ rw (same_type_refl t) refl

  -- Put resets a value, and the next Get of its type gives it, where pools are used and the type has
  -- one; the pool is then what it was.
  get-put :
      (t : GoType) (x : Value) (xs : List Value) (pools : Pools Value)
      → lookup t pools ≡ some xs
      → (ps qs : Pools Value) × (put fresh reset true t x pools ≡ some ps)
        × (get fresh reset true t ps ≡ some (reset x, qs))
        × (lookup t qs ≡ some xs)
  unfolding put put_in get get_from
  get-put t x xs pools h =
      let ps = assign t (reset x ∷ xs) pools in
      (
        ps,
        assign t xs ps,
        simp h refl,
        simp (lookup-assign_same t (reset x ∷ xs) pools) refl,
        lookup-assign_same t xs ps,
      )
