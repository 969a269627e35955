-- ===== src/Rpc/Register.antt =====
-- suitableMethods and register of reflect/typeReflectCall.go.
pub mod Suitable
use go_util.Prelude.{
  ℕ, Bool, true, false, not, ◌&&◌, Option, none, some, List, [], ◌∷◌, if◌then◌else◌,
}
use go_util.Prelude.Dict.{Dict, bytes_key, lookup, assign}
use go_util.Rpc.Types.{
  GoType, type_key, is_pointer, Reflection, is_empty, is_exported, is_exported_or_builtin_type,
  Method, is_exported_method,
}
use go_util.Rpc.Pools.{Pools, init}

-- methodType, without its lock
pub record MethodType : Type 0 where
  pub method : Method
  pub arg_type : GoType
  pub reply_type : GoType

-- What reflect tells of a receiver: the name of its type, its methods, and those of a pointer to it.
pub record Receiver : Type 0 where
  pub type_name : List ℕ
  pub methods : List Method
  pub pointer_methods : List Method

pub record Service : Type 0 where
  pub name : List ℕ
  pub receiver : Receiver
  pub method : Dict (List ℕ) MethodType

abbrev pub Services : Type 0
Services = Dict (List ℕ) Service

pub data Error : Type 0 where
  no_name not_exported hint_pointer no_methods : Error

-- The tests of suitableMethods, in order; a method that passes comes with its two types.
unfoldable pub suitable_outs :
    Reflection → Method → GoType → GoType → List GoType → Option MethodType
suitable_outs r m arg reply (out ∷ []) =
    if r.is_error out
    then some (record { method = m; arg_type = arg; reply_type = reply })
    else none
suitable_outs r m arg reply [] = none
suitable_outs r m arg reply (out ∷ more ∷ rest) = none

unfoldable pub suitable_ins : Reflection → Method → List GoType → Option MethodType
suitable_ins r m (receiver ∷ ctx ∷ arg ∷ reply ∷ []) =
    if not (r.is_context ctx)
    then none
    else if not (is_exported_or_builtin_type r arg)
    then none
    else if not (is_pointer reply)
    then none
    else if not (is_exported_or_builtin_type r reply)
    then none
    else suitable_outs r m arg reply m.outs
suitable_ins r m _ = none

unfoldable pub suitable : Reflection → Method → Option MethodType
suitable r m = if is_exported_method m then suitable_ins r m m.ins else none

-- The methods found so far, and the pools.
abbrev pub Found : Type 0 → Type 0
Found Value = Dict (List ℕ) MethodType × Pools Value

-- The server: its services and the pools, which all services share.
pub record Server (Value : Type 0) : Type 0 where
  pub service_map : Services
  pub pools : Pools Value

abbrev is_none : Dict (List ℕ) MethodType → Bool
is_none [] = true
is_none (x ∷ xs) = false

module _ {Value : Type 0} where
  unfoldable pub add_method : Method → Option MethodType → Found Value → Found Value
  add_method m none f = f
  add_method m (some t) f = (assign m.name t f.0, init t.reply_type (init t.arg_type f.1))

  -- The loop of suitableMethods.
  unfoldable pub find_methods : Reflection → List Method → Found Value → Found Value
  find_methods r [] f = f
  find_methods r (m ∷ rest) f = find_methods r rest (add_method m (suitable r m) f)

  unfoldable pub suitable_methods : Reflection → List Method → Pools Value → Found Value
  suitable_methods r methods pools = find_methods r methods ([], pools)

  -- An error is returned where a test is met.
  unfoldable pub refuse :
      Bool → Error → Server Value → Option Error × Server Value → Option Error × Server Value
  refuse test e s rest = if test then (some e, s) else rest

  -- Without a method there is an error, which looks at the methods of a pointer for a hint.
  unfoldable pub install :
      Reflection → List ℕ → Receiver → Found Value → Server Value → Option Error × Server Value
  install r sname receiver found s =
      let hint = suitable_methods r receiver.pointer_methods found.1 in
      refuse (is_none found.0) (if is_none hint.0 then no_methods else hint_pointer)
        (record s { pools = hint.1 })
        (
          none,
          record {
            service_map =
                assign sname (record { name = sname; receiver = receiver; method = found.0 })
                  s.service_map;
            pools = found.1;
          },
        )

  unfoldable pub register_named :
      Reflection → Bool → List ℕ → Receiver → Server Value → Option Error × Server Value
  register_named r use_name sname receiver s = refuse (is_empty sname) no_name s (
      refuse (not use_name && not (is_exported r sname)) not_exported s
        (install r sname receiver (suitable_methods r receiver.methods s.pools) s))

  unfoldable pub register :
      Reflection → Receiver → List ℕ → Bool → Server Value → Option Error × Server Value
  register r receiver name use_name s =
      register_named r use_name (if use_name then name else receiver.type_name) receiver s
