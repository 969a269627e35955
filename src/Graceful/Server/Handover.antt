-- ===== src/Graceful/Server/Handover.antt =====
-- The child that forkChild of gracefull_server/tcp/server.go starts gets its parent's listener.
use go_util.Prelude.{
  ℕ, ◌≡◌, ◌≢◌, refl, sym, ap, ◌∙◌, ◌⊎◌, inl, inr, true, some, List, [], ◌∷◌, ◌++◌, get_elem?,
}
use go_util.Prelude.Dict.{same_bytes, same_bytes_refl}
use go_util.Graceful.System.{Listener, NetListener, ProcAttr, Result, ok, err, System}
use go_util.Graceful.Server.{
  listener_variable, Outcome, done, failed, passed_on, from_file, from_listener, from_variable,
  import_listener, or_create, create_or_import_listener, get_listener_file, child_of, with_pid,
  with_name, with_env, with_file, fork_child,
}

abbrev pub setting : List ℕ → List ℕ
setting value = listener_variable ++ 61 ∷ value

module _ {Socket File : Type 0} (sys : System Socket File) where
  -- What is documented of the system: a variable that is set has its value, and of two values one;
  -- a value that is marshalled is unmarshalled again, from a text that is not empty; a descriptor
  -- that was passed on is the same file.
  pub record Documented : Type 0 where
    pub one_value :
        (env : List (List ℕ)) (value : List ℕ)
        → sys.getenv env listener_variable ≡ []
        → sys.getenv (env ++ setting value ∷ []) listener_variable ≡ value
    pub either_value :
        (env : List (List ℕ)) (value : List ℕ)
        → (sys.getenv (env ++ setting value ∷ []) listener_variable ≡ value)
          ⊎ (sys.getenv (env ++ setting value ∷ []) listener_variable
              ≡ sys.getenv env listener_variable)
    pub unmarshal-marshal :
        (l : Listener) (text : List ℕ)
        → sys.marshal l ≡ ok text
        → (sys.unmarshal text ≡ ok l) × (text ≢ [])
    pub passed_file :
        (files : List File) (fd : ℕ) (filename : List ℕ) (f : File)
        → get_elem? files fd ≡ some f
        → (g : File) × (sys.new_file files fd filename ≡ some g)
          × (sys.file_listener g ≡ sys.file_listener f)

  -- An environment whose variable announces descriptor 3 as the listener of an address.
  pub Announces : List ℕ → List (List ℕ) → Type 0
  Announces addr env =
      (l : Listener) × (l.addr ≡ addr)
      × (l.fd ≡ 3)
      × (sys.unmarshal (sys.getenv env listener_variable) ≡ ok l)
      × (sys.getenv env listener_variable ≢ [])

  Started : List ℕ → NetListener Socket → ProcAttr File → Type 0
  Started addr ln attr =
      (f : File) × (text exec_name : List ℕ) × (get_listener_file sys ln ≡ done f)
      × (sys.marshal (record { addr = addr; fd = 3; filename = sys.name f }) ≡ ok text)
      × (attr ≡ child_of sys f text exec_name)

  fork_child-Started :
      (addr : List ℕ) (ln : NetListener Socket) {attr : ProcAttr File} {pid : ℕ}
      → fork_child sys addr ln ≡ done (attr, pid)
      → Started addr ln attr
  unfolding fork_child with_file with_env with_name with_pid Started
  fork_child-Started addr ln {attr} {pid} h = on_file (get_listener_file sys ln) refl h
    where
      on_pid :
          (started : ProcAttr File) (r : Result ℕ)
          → with_pid sys started r ≡ done (attr, pid)
          → attr ≡ started
      on_pid started (err e) h = absurd (cc h)
      on_pid started (ok n) h = cc h

      on_name :
          (f : File) (text : List ℕ) (r : Result (List ℕ))
          → with_name sys f text r ≡ done (attr, pid)
          → (exec_name : List ℕ) × (attr ≡ child_of sys f text exec_name)
      on_name f text (err e) h = absurd (cc h)
      on_name f text (ok exec_name) h = (exec_name, on_pid (child_of sys f text exec_name) _ h)

      on_env :
          (f : File) (r : Result (List ℕ))
          → with_env sys f r ≡ done (attr, pid)
          → (text exec_name : List ℕ) × (r ≡ ok text) × (attr ≡ child_of sys f text exec_name)
      on_env f (err e) h = absurd (cc h)
      on_env f (ok text) h =
          let (exec_name, same) = on_name f text sys.executable h in (text, exec_name, refl, same)

      on_file :
          (o : Outcome File)
          → get_listener_file sys ln ≡ o
          → with_file sys addr o ≡ done (attr, pid)
          → Started addr ln attr
      on_file (failed e) e1 h = absurd (cc h)
      on_file (done f) e1 h =
          let (text, exec_name, marshalled, same) = on_env f _ h in
          (f, text, exec_name, e1, marshalled, same)

  -- The child imports what descriptor 3 is.
  Announces-import :
      (addr : List ℕ) (env : List (List ℕ)) (files : List File) (f : File)
      → Documented
      → Announces addr env
      → get_elem? files 3 ≡ some f
      → import_listener sys addr env files ≡ passed_on sys (sys.file_listener f)
  unfolding import_listener from_variable from_listener from_file Announces
  Announces-import addr env files f documented (l, at, fd, read, present) h =
      on_value (sys.getenv env listener_variable) refl
    where
      reopened :
          (g : File) × (sys.new_file files l.fd l.filename ≡ some g)
          × (sys.file_listener g ≡ sys.file_listener f)
      reopened = documented.passed_file files l.fd l.filename f (rw fd h)

      on_value :
          (value : List ℕ)
          → sys.getenv env listener_variable ≡ value
          → from_variable sys addr files value ≡ passed_on sys (sys.file_listener f)
      on_value [] e = absurd (present e)
      on_value (c ∷ cs) e =
          let parsed : sys.unmarshal (c ∷ cs) ≡ ok l = rw e at read in
          let own : same_bytes l.addr addr ≡ true = rw at (same_bytes_refl addr) in
          let (g, new, same) = reopened in
          ap (from_listener sys addr files) parsed ∙ rw (own, new, same) refl

  -- The variable of the child's environment announces descriptor 3, whether or not its parent had the
  -- variable from a parent of its own.
  child-Announces :
      (addr text : List ℕ) (f : File)
      → Documented
      → (sys.getenv sys.environ listener_variable ≡ []) ⊎ Announces addr sys.environ
      → sys.marshal (record { addr = addr; fd = 3; filename = sys.name f }) ≡ ok text
      → Announces addr (sys.environ ++ setting text ∷ [])
  unfolding Announces
  child-Announces addr text f documented before h =
      let l : Listener = record { addr = addr; fd = 3; filename = sys.name f } in
      let (back, filled) = documented.unmarshal-marshal l text h in
      let own : sys.getenv (sys.environ ++ setting text ∷ []) listener_variable ≡ text
          → Announces addr (sys.environ ++ setting text ∷ []) =
        λ e. (l, refl, refl, ap sys.unmarshal e ∙ back, λ z. filled (sym e ∙ z)) in
      elim before [
        | inl absent ↦ own (documented.one_value sys.environ text absent)
        | inr (l2, at, fd, read, present) ↦ elim (documented.either_value sys.environ text) [
          | inl e ↦ own e
          | inr e ↦ (l2, at, fd, ap sys.unmarshal e ∙ read, λ z. present (sym e ∙ z))
        ]
      ]

  -- The child that forkChild starts listens on its parent's listener: createOrImportListener for the
  -- same address gives what net.FileListener makes of the file that the parent took from its
  -- listener, and creates none. It is so in every generation: the parent either has no LISTENER
  -- variable or has one that a parent of its own announced the address with, and the child then has
  -- such a one. This holds where the system behaves as documented.
  pub fork_child-import :
      (addr : List ℕ) (ln inherited : NetListener Socket) (f : File) {attr : ProcAttr File}
      {pid : ℕ}
      → Documented
      → (sys.getenv sys.environ listener_variable ≡ []) ⊎ Announces addr sys.environ
      → fork_child sys addr ln ≡ done (attr, pid)
      → get_listener_file sys ln ≡ done f
      → sys.file_listener f ≡ ok inherited
      → (create_or_import_listener sys addr attr.env attr.files ≡ done inherited)
        × Announces addr attr.env
  unfolding create_or_import_listener or_create passed_on Started child_of
  fork_child-import addr ln inherited f {attr} documented before h on_file listens =
      let (g, text, exec_name, e1, marshalled, same) = fork_child-Started addr ln h in
      let one : g ≡ f = cc (e1, on_file) in
      let announced = child-Announces addr text g documented before marshalled in
      let there : get_elem? attr.files 3 ≡ some f =
        ap (λ t. get_elem? t.files 3) same ∙ ap some one in
      let env : attr.env ≡ sys.environ ++ setting text ∷ [] = ap (λ t. t.env) same in
      let final : Announces addr attr.env = rw (sym env) at announced in
      (
        ap (or_create sys addr) (
            Announces-import addr attr.env attr.files f documented final there
            ∙ ap (passed_on sys) listens),
        final,
      )
