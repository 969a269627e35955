-- ===== src/Tests/Graceful.antt =====
-- gracefull_server/tcp/server.go: sockets are numbers, and the environment holds one variable only.
use go_util.Prelude.{
  ℕ, ◌≡◌, refl, sym, ap, ◌∙◌, inl, true, false, none, List, [], ◌∷◌, ◌++◌, length, All, take, drop,
  get_elem?, take-append, drop-append,
}
use go_util.Graceful.System.{Listener, tcp, Result, ok, err, ProcAttr, System}
use go_util.Graceful.Server.{
  done, get_listener_file, child_of, fork_child, create_or_import_listener,
}
use go_util.Graceful.Server.Handover.{setting, Documented, Announces, fork_child-import}
use go_util.Graceful.Signals.{hup, usr2, int, Arrival, waiting, returned, wait_for_signals}
use go_util.Graceful.Signals.Stop.{is_done, stops, children, all_children, wait-first_stop}

abbrev last : List (List ℕ) → List ℕ
last [] = []
last (x ∷ []) = x
last (x ∷ y ∷ rest) = last (y ∷ rest)

last-append : (env : List (List ℕ)) (x : List ℕ) → last (env ++ x ∷ []) ≡ x
last-append [] x = refl
last-append (y ∷ []) x = refl
last-append (y ∷ z ∷ rest) x = last-append (z ∷ rest) x

abbrev read_listener : List ℕ → Result Listener
read_listener [] = err 1
read_listener (fd ∷ []) = err 1
read_listener (fd ∷ n ∷ rest) = ok (record { addr = take n rest; fd = fd; filename = drop n rest })

abbrev write_listener : Listener → List ℕ
write_listener l = l.fd ∷ length l.addr ∷ (l.addr ++ l.filename)

abbrev sys : System ℕ ℕ
sys = record {
  getenv = λ env name. drop 9 (last env);
  environ = [];
  unmarshal = read_listener;
  marshal = λ l. ok (write_listener l);
  new_file = λ files fd filename. get_elem? files fd;
  name = λ f. 116 ∷ [];
  std_files = (0, 1, 2);
  file_listener = λ f. ok (tcp f);
  listen = λ addr. err 98;
  file = λ s. ok s;
  executable = ok (47 ∷ []);
  dir = λ path. path;
  start_process = λ attr. ok 100;
  shutdown = none;
}

read-write : (l : Listener) → read_listener (write_listener l) ≡ ok l
read-write l = simp (take-append l.addr l.filename, drop-append l.addr l.filename) refl

sys-Documented : Documented sys
sys-Documented = record {
  one_value = λ env value h. ap (drop 9) (last-append env (setting value));
  either_value = λ env value. inl (ap (drop 9) (last-append env (setting value)));
  unmarshal-marshal = λ l text h.
      let same : write_listener l ≡ text = cc h in
      (ap read_listener (sym same) ∙ read-write l, λ e. absurd (cc (same, e)));
  passed_file = λ files fd filename f h. (f, h, refl);
}

abbrev addr : List ℕ
addr = 58 ∷ 56 ∷ 48 ∷ []

abbrev child : ProcAttr ℕ
child = record {
  exec_name = 47 ∷ [];
  args = (47 ∷ []) ∷ [];
  dir = 47 ∷ [];
  env = setting (3 ∷ 3 ∷ 58 ∷ 56 ∷ 48 ∷ 116 ∷ []) ∷ [];
  files = 0 ∷ 1 ∷ 2 ∷ 9 ∷ [];
}

forked : fork_child sys addr (tcp 9) ≡ done (child, 100)
unfolding fork_child get_listener_file child_of
forked = refl

listens_on : get_listener_file sys (tcp 9) ≡ done 9
unfolding get_listener_file
listens_on = refl

fork_child-import_example :
    (create_or_import_listener sys addr child.env child.files ≡ done (tcp 9))
    × Announces sys addr child.env
fork_child-import_example =
    fork_child-import sys addr (tcp 9) (tcp 9) 9 sys-Documented (inl refl) forked listens_on refl

abbrev two_signals : List (Arrival ℕ ℕ)
two_signals = (usr2, sys) ∷ (hup, record sys { executable = err 2 }) ∷ []

two-continue : All (λ b. stops addr (tcp 9) b ≡ false) two_signals
unfolding stops fork_child get_listener_file is_done
two-continue = (refl, (refl, tt))

int-stops : stops addr (tcp 9) (int, sys) ≡ true
unfolding stops
int-stops = refl

wait-first_stop_example :
    (wait_for_signals addr (tcp 9) two_signals ≡ waiting (all_children addr (tcp 9) two_signals))
    × (wait_for_signals addr (tcp 9) (two_signals ++ (int, sys) ∷ two_signals)
        ≡ returned (all_children addr (tcp 9) two_signals ++ children addr (tcp 9) (int, sys)) none)
wait-first_stop_example =
    wait-first_stop addr (tcp 9) two_signals (int, sys) two_signals two-continue int-stops
