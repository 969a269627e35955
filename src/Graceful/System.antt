-- ===== src/Graceful/System.antt =====
-- What gracefull_server/tcp/server.go calls outside the repository, as it answers at one moment. An
-- error of the system is its number.
use go_util.Prelude.{ℕ, Option, List}

pub record Listener : Type 0 where
  pub addr : List ℕ
  pub fd : ℕ
  pub filename : List ℕ

-- The types that getListenerFile tells apart.
pub data NetListener (Socket : Type 0) : Type 0 where
  tcp unix other : Socket → NetListener Socket

-- os.ProcAttr with the name of the program. The files are the child's descriptors from 0 on.
pub record ProcAttr (File : Type 0) : Type 0 where
  pub exec_name : List ℕ
  pub args : List (List ℕ)
  pub dir : List ℕ
  pub env : List (List ℕ)
  pub files : List File

pub data Result (A : Type 0) : Type 0 where
  ok : A → Result A
  err : ℕ → Result A

pub record System (Socket File : Type 0) : Type 0 where
  -- os.Getenv in an environment, os.Environ of this process
  pub getenv : List (List ℕ) → List ℕ → List ℕ
  pub environ : List (List ℕ)
  -- encoding/json
  pub unmarshal : List ℕ → Result Listener
  pub marshal : Listener → Result (List ℕ)
  -- os.NewFile among the descriptors of a process, and File.Name
  pub new_file : List File → ℕ → List ℕ → Option File
  pub name : File → List ℕ
  pub std_files : File × File × File
  -- package net
  pub file_listener : File → Result (NetListener Socket)
  pub listen : List ℕ → Result (NetListener Socket)
  pub file : Socket → Result File
  -- os.Executable, filepath.Dir, os.StartProcess, whose result is the process id
  pub executable : Result (List ℕ)
  pub dir : List ℕ → List ℕ
  pub start_process : ProcAttr File → Result ℕ
  -- Shutdown of the server with five seconds' time
  pub shutdown : Option ℕ
