-- ===== src/Rpc/Register/Suitable.antt =====
-- The methods that are found are the suitable ones.
use go_util.Prelude.{
  ℕ, ◌≡◌, refl, ap, ◌∙◌, Bool, true, false, Option, none, some, inl, inr, List, [], ◌∷◌,
  if◌then◌else◌, Bool-cases,
}
use go_util.Prelude.Dict.{bytes_key, same_bytes, same_bytes_refl, lookup, lookup-assign}
use go_util.Rpc.Types.{Reflection, Method}
use go_util.Rpc.Register.{
  MethodType, Receiver, Service, Server, Error, Found, suitable, add_method, find_methods,
  suitable_methods, refuse, install, register_named, register,
}

unfoldable pub or_before : Option MethodType → Option MethodType → Option MethodType
or_before none before = before
or_before (some t) before = some t

-- The last suitable method of a name; `before` where there is none.
unfoldable pub last_suitable :
    Reflection → List ℕ → List Method → Option MethodType → Option MethodType
last_suitable r name [] before = before
last_suitable r name (m ∷ rest) before =
    last_suitable r name rest
      (or_before (if same_bytes m.name name then suitable r m else none) before)

module _ {Value : Type 0} where
  add_method-lookup :
      (name : List ℕ) (m : Method) (o : Option MethodType) (f : Found Value)
      → lookup name (add_method m o f).0
        ≡ or_before (if same_bytes m.name name then o else none) (lookup name f.0)
  unfolding add_method or_before
  add_method-lookup name m none f = elim (Bool-cases (same_bytes m.name name)) [
    | inl e ↦ rw e refl
    | inr e ↦ rw e refl
  ]
  add_method-lookup name m (some t) f = lookup-assign name m.name t f.0 ∙ chosen
    where
      chosen :
          (if same_bytes m.name name then some t else lookup name f.0)
          ≡ or_before (if same_bytes m.name name then some t else none) (lookup name f.0)
      chosen = elim (Bool-cases (same_bytes m.name name)) [ inl e ↦ rw e refl | inr e ↦ rw e refl ]

  find_methods-lookup :
      (r : Reflection) (name : List ℕ) (methods : List Method) (f : Found Value)
      → lookup name (find_methods r methods f).0 ≡ last_suitable r name methods (lookup name f.0)
  unfolding find_methods last_suitable
  find_methods-lookup r name [] f = refl
  find_methods-lookup r name (m ∷ rest) f =
      find_methods-lookup r name rest (add_method m (suitable r m) f)
      ∙ ap (last_suitable r name rest) (add_method-lookup name m (suitable r m) f)

  -- A service that was registered: it stands under its name with the suitable methods of its
  -- receiver, of those of one name the last.
  pub record Registered (r : Reflection) (name : List ℕ) (receiver : Receiver) (s : Server Value)
      : Type 0 where
    pub service : Service
    pub listed : lookup name s.service_map ≡ some service
    pub same_receiver : service.receiver ≡ receiver
    pub methods : (m : List ℕ) → lookup m service.method ≡ last_suitable r m receiver.methods none

  -- Where there is no error, a test for one was not met.
  past_test :
      (P : Server Value → Type 0) (b : Bool) (e : Error) (s : Server Value)
      (d : Option Error × Server Value)
      → (d.0 ≡ none → P d.1)
      → (refuse b e s d).0 ≡ none
      → P (refuse b e s d).1
  unfolding refuse
  past_test P true e s d ok_then h = absurd (cc h)
  past_test P false e s d ok_then h = ok_then h

  install-Registered :
      (r : Reflection) (name : List ℕ) (receiver : Receiver) (s : Server Value)
      → (install r name receiver (suitable_methods r receiver.methods s.pools) s).0 ≡ none
      → Registered r name receiver
          (install r name receiver (suitable_methods r receiver.methods s.pools) s).1
  unfolding install suitable_methods lookup
  install-Registered r name receiver s h =
      past_test (Registered r name receiver) _ _ _ _
        (λ _. record {
          service = service;
          listed = lookup-assign name name service s.service_map ∙ rw (same_bytes_refl name) refl;
          same_receiver = refl;
          methods = λ m. find_methods-lookup r m receiver.methods ([], s.pools) ∙ no_methods_yet m;
        })
        h
    where
      service : Service
      service = record {
        name = name;
        receiver = receiver;
        method = (find_methods r receiver.methods ([], s.pools)).0;
      }

      no_methods_yet :
          (m : List ℕ)
          → last_suitable r m receiver.methods (lookup m [])
            ≡ last_suitable r m receiver.methods none
      no_methods_yet m = refl

  -- Where register returns no error, the service is registered under the name asked for, or else
  -- under its type's.
  pub register-Registered :
      (r : Reflection) (receiver : Receiver) (name : List ℕ) (use_name : Bool) (s : Server Value)
      → (register r receiver name use_name s).0 ≡ none
      → Registered r
          (if use_name then name else receiver.type_name)
          receiver
          (register r receiver name use_name s).1
  unfolding register register_named
  register-Registered r receiver name use_name s h =
      let sname = if use_name then name else receiver.type_name in
      past_test (Registered r sname receiver) _ _ _ _
        (past_test (Registered r sname receiver) _ _ _ _ (install-Registered r sname receiver s)) h
