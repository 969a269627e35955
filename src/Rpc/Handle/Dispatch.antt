-- ===== src/Rpc/Handle/Dispatch.antt =====
-- A request reaches the method that was registered.
use go_util.Prelude.{
  ℕ, ◌≡◌, refl, Bool, true, false, none, some, List, if◌then◌else◌, Outcome, ok, panic,
}
use go_util.Prelude.Dict.{bytes_key}
use go_util.Rpc.Types.{Reflection, is_pointer}
use go_util.Rpc.Pools.{get}
use go_util.Rpc.Register.{MethodType, Receiver, Server, register}
use go_util.Rpc.Register.Suitable.{last_suitable, register-Registered}
use go_util.Rpc.Handle.{
  Error, Invocation, returned, panicked, Runtime, handle_request, call, recovered, after_call,
  decoded, encoded, with_reply, with_arg, with_method, with_service,
}

-- The reply, however the method ended.
unfoldable pub reply_of : {Value : Type 0} → Invocation Value → Value
reply_of (returned e reply) = reply
reply_of (panicked reply) = reply

module _ {Value : Type 0} (rt : Runtime Value) (r : Reflection) (receiver : Receiver)
    (name method_name : List ℕ) (use_name : Bool) (s : Server Value) (t : MethodType) where
  abbrev service_name : List ℕ
  service_name = if use_name then name else receiver.type_name

  abbrev registered : Server Value
  registered = (register r receiver name use_name s).1

  after_invocation :
      (i : Invocation Value) (text : List ℕ)
      → rt.marshal (reply_of i) ≡ some text
      → after_call rt (recovered rt i) ≡ ok text
  unfolding after_call recovered encoded reply_of
  after_invocation (returned e reply) text h = rw h refl
  after_invocation (panicked reply) text h = rw h refl

  -- After a service was registered, a request for the last of its suitable methods of a name, with a
  -- body that can be decoded, is answered by the encoded reply of that method, also where the method
  -- returns an error or panics. (Pools are not used.)
  pub handle_request-register :
      (body text : List ℕ) (arg : Value)
      → (register r receiver name use_name s).0 ≡ none
      → last_suitable r method_name receiver.methods none ≡ some t
      → rt.unmarshal body (rt.fresh t.arg_type) ≡ some (some arg)
      → rt.marshal (reply_of (rt.invoke receiver t arg (rt.fresh t.reply_type))) ≡ some text
      → (handle_request rt false body service_name method_name registered).0 ≡ ok text
  unfolding handle_request with_service with_method with_arg with_reply decoded call get
  handle_request-register body text arg no_error found decodes encodes =
      let h = register-Registered r receiver name use_name s no_error in
      simp (h.listed, h.methods method_name, found, decodes, h.same_receiver)
        (after_invocation (rt.invoke receiver t arg (rt.fresh t.reply_type)) text encodes)

  -- A body that decodes to nil, as null does, makes the request panic.
  handle_request_panics :
      (body : List ℕ)
      → (register r receiver name use_name s).0 ≡ none
      → last_suitable r method_name receiver.methods none ≡ some t
      → rt.unmarshal body (rt.fresh t.arg_type) ≡ some none
      → (handle_request rt false body service_name method_name registered).0 ≡ panic
  unfolding handle_request with_service with_method with_arg with_reply decoded call get after_call
  handle_request_panics body no_error found decodes =
      let h = register-Registered r receiver name use_name s no_error in
      simp (h.listed, h.methods method_name, found, decodes) (either (is_pointer t.arg_type))
    where
      both_panic : Bool → Outcome Error (List ℕ)
      both_panic p = if p then panic else panic

      either : (p : Bool) → both_panic p ≡ panic
      either true = refl
      either false = refl
