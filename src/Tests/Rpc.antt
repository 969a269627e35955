-- ===== src/Tests/Rpc.antt =====
-- reflect/typeReflectCall.go: one service with one method.
use go_util.Prelude.{ℕ, ◌+◌, ◌≡◌, refl, true, false, none, some, [], ◌∷◌, ok}
use go_util.Prelude.Dict.{assign, remove, same_bytes}
use go_util.Rpc.Types.{
  GoType, pointer, plain, type_key, Reflection, Method, is_exported, is_exported_or_builtin_type,
}
use go_util.Rpc.Register.{
  MethodType, Receiver, Server, suitable, suitable_ins, suitable_outs, add_method, find_methods,
  suitable_methods, refuse, install, register_named, register,
}
use go_util.Rpc.Register.Suitable.{or_before, last_suitable}
use go_util.Rpc.Handle.{Runtime, returned, handle_request}
use go_util.Rpc.Handle.Dispatch.{reply_of, handle_request-register}

abbrev reflection : Reflection
reflection = record { starts_upper = λ name. true; is_context = λ t. true; is_error = λ t. true }

abbrev request_type : GoType
request_type = pointer (plain (82 ∷ []) [])

abbrev on_rpc_call : Method
on_rpc_call = record {
  name = 79 ∷ [];
  pkg_path = [];
  ins = plain [] [] ∷ plain [] [] ∷ request_type ∷ pointer (plain (83 ∷ []) []) ∷ [];
  outs = plain [] [] ∷ [];
}

abbrev hello : Receiver
hello = record { type_name = 72 ∷ []; methods = on_rpc_call ∷ []; pointer_methods = [] }

abbrev empty : Server ℕ
empty = record { service_map = []; pools = [] }

abbrev found : MethodType
found = record {
  method = on_rpc_call;
  arg_type = request_type;
  reply_type = pointer (plain (83 ∷ []) []);
}

-- A body is the number it is long, and an empty one is null; the method returns an error.
abbrev runtime : Runtime ℕ
runtime = record {
  unmarshal = λ body v. elim body [ [] ↦ some none | x ∷ xs ↦ some (some x) ];
  marshal = λ v. some (v ∷ []);
  fresh = λ t. 0;
  reset = λ v. 0;
  invoke = λ receiver t arg reply. returned (some 7) (arg + 1);
}

registers : (register reflection hello [] false empty).0 ≡ none
unfolding register register_named refuse install suitable_methods find_methods add_method suitable
    suitable_ins suitable_outs is_exported is_exported_or_builtin_type assign remove
registers = refl

finds : last_suitable reflection (79 ∷ []) hello.methods none ≡ some found
unfolding last_suitable or_before suitable suitable_ins suitable_outs is_exported
    is_exported_or_builtin_type same_bytes
finds = refl

handle_request-register_example :
    (handle_request runtime false
      (5 ∷ [])
      (72 ∷ [])
      (79 ∷ [])
      (register reflection hello [] false empty).1).0
    ≡ ok (6 ∷ [])
unfolding reply_of
handle_request-register_example =
    handle_request-register runtime reflection hello [] (79 ∷ []) false empty found (5 ∷ [])
      (6 ∷ []) 5 registers finds refl refl
