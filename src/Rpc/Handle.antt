-- ===== src/Rpc/Handle.antt =====
-- call and handleRequest of reflect/typeReflectCall.go.
pub mod Dispatch
use go_util.Prelude.{
  ℕ, Bool, true, false, Option, none, some, List, [], ◌∷◌, if◌then◌else◌, Outcome, ok, err, panic,
  stuck,
}
use go_util.Prelude.Dict.{bytes_key, lookup}
use go_util.Rpc.Types.{GoType, is_pointer}
use go_util.Rpc.Pools.{Pools, get}
use go_util.Rpc.Register.{MethodType, Receiver, Service, Server}

-- How a method ends: it returns an error or nil, or panics; the reply is as it left it.
pub data Invocation (Value : Type 0) : Type 0 where
  returned : Option ℕ → Value → Invocation Value
  panicked : Value → Invocation Value

-- What is outside: the codec of encoding/json (the value that is decoded into may become nil, which
-- is `none` inside), reflect.New, the values' Reset, and what the registered methods do.
pub record Runtime (Value : Type 0) : Type 0 where
  pub unmarshal : List ℕ → Value → Option (Option Value)
  pub marshal : Value → Option (List ℕ)
  pub fresh : GoType → Value
  pub reset : Value → Value
  pub invoke : Receiver → MethodType → Value → Value → Invocation Value

-- The error of `call`: the method's own, or a panic that was recovered.
pub data CallError : Type 0 where
  own : ℕ → CallError
  internal : CallError

pub data Error : Type 0 where
  no_service no_method bad_body bad_reply : Error

module _ {Value : Type 0} (rt : Runtime Value) where
  own_error : Option ℕ → Option CallError
  own_error none = none
  own_error (some e) = some (own e)

  recovered : Invocation Value → Outcome Error (Option CallError × Value)
  unfolding own_error
  recovered (returned e reply) = ok (own_error e, reply)
  recovered (panicked reply) = ok (some internal, reply)

  -- service.call. Without an argument the call panics, and so does the text of the recovered error,
  -- which asks the argument for its value.
  unfoldable pub call :
      Service → MethodType → Option Value → Value → Outcome Error (Option CallError × Value)
  unfolding recovered
  call s t none reply = panic
  call s t (some arg) reply = recovered (rt.invoke s.receiver t arg reply)

  encoded : Option (List ℕ) → Outcome Error (List ℕ)
  encoded none = err bad_reply
  encoded (some text) = ok text

  -- The error of the call is assigned, and then the result of json.Marshal returned.
  after_call : Outcome Error (Option CallError × Value) → Outcome Error (List ℕ)
  unfolding encoded
  after_call (ok r) = encoded (rt.marshal r.1)
  after_call (err e) = err e
  after_call panic = panic
  after_call stuck = stuck

  -- Elem of a nil panics as well.
  decoded : Service → MethodType → Value → Option (Option Value) → Outcome Error (List ℕ)
  unfolding after_call
  decoded s t reply none = err bad_body
  decoded s t reply (some none) =
      if is_pointer t.arg_type then after_call (call s t none reply) else panic
  decoded s t reply (some (some arg)) = after_call (call s t (some arg) reply)

  with_reply :
      List ℕ
      → Service
      → MethodType
      → Value
      → Server Value
      → Option (Value × Pools Value)
      → Outcome Error (List ℕ) × Server Value
  unfolding decoded
  with_reply body s t arg server none = (panic, server)
  with_reply body s t arg server (some (reply, pools)) =
      (decoded s t reply (rt.unmarshal body arg), record server { pools = pools })

  with_arg :
      Bool
      → List ℕ
      → Service
      → MethodType
      → Server Value
      → Option (Value × Pools Value)
      → Outcome Error (List ℕ) × Server Value
  unfolding with_reply
  with_arg use_pool body s t server none = (panic, server)
  with_arg use_pool body s t server (some (arg, pools)) =
      with_reply body s t arg (record server { pools = pools })
        (get rt.fresh rt.reset use_pool t.reply_type pools)

  with_method :
      Bool
      → List ℕ
      → Service
      → Server Value
      → Option MethodType
      → Outcome Error (List ℕ) × Server Value
  unfolding with_arg
  with_method use_pool body s server none = (err no_method, server)
  with_method use_pool body s server (some t) =
      with_arg use_pool body s t server (get rt.fresh rt.reset use_pool t.arg_type server.pools)

  with_service :
      Bool → List ℕ → List ℕ → Server Value → Option Service → Outcome Error (List ℕ) × Server Value
  unfolding with_method
  with_service use_pool body method_name server none = (err no_service, server)
  with_service use_pool body method_name server (some s) =
      with_method use_pool body s server (lookup method_name s.method)

  unfoldable pub handle_request :
      Bool → List ℕ → List ℕ → List ℕ → Server Value → Outcome Error (List ℕ) × Server Value
  unfolding with_service
  handle_request use_pool body service_name method_name server =
      with_service use_pool body method_name server (lookup service_name server.service_map)
