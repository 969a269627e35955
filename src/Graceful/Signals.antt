-- ===== src/Graceful/Signals.antt =====
-- waitForSignals of gracefull_server/tcp/server.go.
pub mod Stop
use go_util.Prelude.{ℕ, Bool, true, false, Option, List, [], ◌∷◌, ◌++◌}
use go_util.Graceful.System.{NetListener, System}
use go_util.Graceful.Server.{Outcome, done, failed, fork_child}

-- The signals that Notify asks for.
pub data Signal : Type 0 where
  hup usr2 int quit : Signal

-- The process ids of the children that were forked, and whether the server still runs or the function
-- has returned what Shutdown gave.
pub data Served : Type 0 where
  waiting : List ℕ → Served
  returned : List ℕ → Option ℕ → Served

after_child : ℕ → Served → Served
after_child pid (waiting pids) = waiting (pid ∷ pids)
after_child pid (returned pids e) = returned (pid ∷ pids) e

on_usr2 : {A : Type 0} → Outcome (A × ℕ) → Served → Served
unfolding after_child
on_usr2 (failed e) later = later
on_usr2 (done (attr, pid)) later = after_child pid later

on_hup : {A : Type 0} → Option ℕ → Outcome (A × ℕ) → Served → Served
on_hup shutdown (failed e) later = later
on_hup shutdown (done (attr, pid)) later = returned (pid ∷ []) shutdown

-- A signal comes with the system as it answers at that moment.
abbrev pub Arrival : Type 0 → Type 0 → Type 0
Arrival Socket File = Signal × System Socket File

module _ {Socket File : Type 0} (addr : List ℕ) (ln : NetListener Socket) where
  unfoldable pub wait_for_signals : List (Arrival Socket File) → Served
  unfolding on_hup on_usr2
  wait_for_signals [] = waiting []
  wait_for_signals ((hup, sys) ∷ rest) =
      on_hup sys.shutdown (fork_child sys addr ln) (wait_for_signals rest)
  wait_for_signals ((usr2, sys) ∷ rest) = on_usr2 (fork_child sys addr ln) (wait_for_signals rest)
  wait_for_signals ((int, sys) ∷ rest) = returned [] sys.shutdown
  wait_for_signals ((quit, sys) ∷ rest) = returned [] sys.shutdown
