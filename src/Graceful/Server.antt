-- ===== src/Graceful/Server.antt =====
-- importListener, createListener, createOrImportListener, getListenerFile, forkChild and
-- waitForSignals of gracefull_server/tcp/server.go.
pub mod Handover
use go_util.Prelude.{ℕ, Option, none, some, List, [], ◌∷◌, ◌++◌}
use go_util.Graceful.System.{
  Listener, NetListener, tcp, unix, other, ProcAttr, Result, ok, err, System,
}
use go_util.Prelude.Dict.{same_bytes}
use go_util.Prelude.{Bool, true, false, if◌then◌else◌}

-- "LISTENER"
abbrev pub listener_variable : List ℕ
listener_variable = 76 ∷ 73 ∷ 83 ∷ 84 ∷ 69 ∷ 78 ∷ 69 ∷ 82 ∷ []

-- The errors that the file makes itself, and those of what it calls.
pub data Error : Type 0 where
  no_variable other_addr no_file unsupported : Error
  of_system : ℕ → Error

pub data Outcome (A : Type 0) : Type 0 where
  done : A → Outcome A
  failed : Error → Outcome A

module _ {Socket File : Type 0} (sys : System Socket File) where
  passed_on : {A : Type 0} → Result A → Outcome A
  passed_on (ok a) = done a
  passed_on (err e) = failed (of_system e)

  from_file : Option File → Outcome (NetListener Socket)
  unfolding passed_on
  from_file none = failed no_file
  from_file (some f) = passed_on (sys.file_listener f)

  from_listener : List ℕ → List File → Result Listener → Outcome (NetListener Socket)
  unfolding from_file
  from_listener addr files (err e) = failed (of_system e)
  from_listener addr files (ok l) =
      if same_bytes l.addr addr
      then from_file (sys.new_file files l.fd l.filename)
      else failed other_addr

  from_variable : List ℕ → List File → List ℕ → Outcome (NetListener Socket)
  unfolding from_listener
  from_variable addr files [] = failed no_variable
  from_variable addr files (c ∷ cs) = from_listener addr files (sys.unmarshal (c ∷ cs))

  -- importListener in a process with an environment and descriptors.
  unfoldable pub import_listener : List ℕ → List (List ℕ) → List File → Outcome (NetListener Socket)
  unfolding from_variable
  import_listener addr env files = from_variable addr files (sys.getenv env listener_variable)

  unfoldable pub create_listener : List ℕ → Outcome (NetListener Socket)
  unfolding passed_on
  create_listener addr = passed_on (sys.listen addr)

  or_create : List ℕ → Outcome (NetListener Socket) → Outcome (NetListener Socket)
  unfolding create_listener
  or_create addr (done ln) = done ln
  or_create addr (failed e) = create_listener addr

  unfoldable pub create_or_import_listener :
      List ℕ → List (List ℕ) → List File → Outcome (NetListener Socket)
  unfolding or_create
  create_or_import_listener addr env files = or_create addr (import_listener addr env files)

  unfoldable pub get_listener_file : NetListener Socket → Outcome File
  unfolding passed_on
  get_listener_file (tcp s) = passed_on (sys.file s)
  get_listener_file (unix s) = passed_on (sys.file s)
  get_listener_file (other s) = failed unsupported

  -- The child's environment, arguments and descriptors.
  unfoldable pub child_of : File → List ℕ → List ℕ → ProcAttr File
  child_of ln_file listener_env exec_name = record {
    exec_name = exec_name;
    args = exec_name ∷ [];
    dir = sys.dir exec_name;
    env = sys.environ ++ (listener_variable ++ 61 ∷ listener_env) ∷ [];
    files = sys.std_files.0 ∷ sys.std_files.1 ∷ sys.std_files.2 ∷ ln_file ∷ [];
  }

  with_pid : ProcAttr File → Result ℕ → Outcome (ProcAttr File × ℕ)
  with_pid attr (err e) = failed (of_system e)
  with_pid attr (ok pid) = done (attr, pid)

  with_name : File → List ℕ → Result (List ℕ) → Outcome (ProcAttr File × ℕ)
  unfolding with_pid
  with_name ln_file listener_env (err e) = failed (of_system e)
  with_name ln_file listener_env (ok exec_name) =
      let attr = child_of ln_file listener_env exec_name in with_pid attr (sys.start_process attr)

  with_env : File → Result (List ℕ) → Outcome (ProcAttr File × ℕ)
  unfolding with_name
  with_env ln_file (err e) = failed (of_system e)
  with_env ln_file (ok listener_env) = with_name ln_file listener_env sys.executable

  with_file : List ℕ → Outcome File → Outcome (ProcAttr File × ℕ)
  unfolding with_env
  with_file addr (failed e) = failed e
  with_file addr (done ln_file) =
      with_env ln_file (sys.marshal (record { addr = addr; fd = 3; filename = sys.name ln_file }))

  -- forkChild: what was started, with its process id.
  unfoldable pub fork_child : List ℕ → NetListener Socket → Outcome (ProcAttr File × ℕ)
  unfolding with_file
  fork_child addr ln = with_file addr (get_listener_file ln)
