-- ===== src/Graceful/Signals/Stop.antt =====
-- The server of gracefull_server/tcp/server.go runs until the first signal that stops it.
use go_util.Prelude.{
  ℕ, ◌≡◌, refl, sym, ap, ◌∙◌, Bool, true, false, Option, List, [], ◌∷◌, ◌++◌, All, append_assoc,
}
use go_util.Graceful.System.{NetListener}
use go_util.Graceful.Server.{Outcome, done, failed, fork_child}
use go_util.Graceful.Signals.{
  hup, usr2, int, quit, Served, waiting, returned, after_child, on_hup, on_usr2, Arrival,
  wait_for_signals,
}

unfoldable pub is_done : {A : Type 0} → Outcome A → Bool
is_done (done a) = true
is_done (failed e) = false

unfoldable pub pid_of : {A : Type 0} → Outcome (A × ℕ) → List ℕ
pid_of (done (attr, pid)) = pid ∷ []
pid_of (failed e) = []

-- More children before those of a run.
with_children : List ℕ → Served → Served
with_children pids (waiting later) = waiting (pids ++ later)
with_children pids (returned later e) = returned (pids ++ later) e

on_hup_failed :
    {A : Type 0} (shutdown : Option ℕ) (o : Outcome (A × ℕ)) (later : Served)
    → is_done o ≡ false
    → on_hup shutdown o later ≡ with_children (pid_of o) later
unfolding on_hup is_done pid_of with_children
on_hup_failed shutdown (failed e) (waiting pids) h = refl
on_hup_failed shutdown (failed e) (returned pids x) h = refl
on_hup_failed shutdown (done r) later h = absurd (cc h)

on_hup_done :
    {A : Type 0} (shutdown : Option ℕ) (o : Outcome (A × ℕ)) (later : Served)
    → is_done o ≡ true
    → on_hup shutdown o later ≡ returned (pid_of o) shutdown
unfolding on_hup is_done pid_of
on_hup_done shutdown (failed e) later h = absurd (cc h)
on_hup_done shutdown (done r) later h = refl

on_usr2_children :
    {A : Type 0} (o : Outcome (A × ℕ)) (later : Served)
    → on_usr2 o later ≡ with_children (pid_of o) later
unfolding on_usr2 after_child pid_of with_children
on_usr2_children (failed e) (waiting pids) = refl
on_usr2_children (failed e) (returned pids x) = refl
on_usr2_children (done r) (waiting pids) = refl
on_usr2_children (done r) (returned pids x) = refl

module _ {Socket File : Type 0} (addr : List ℕ) (ln : NetListener Socket) where
  -- SIGINT, SIGQUIT, and SIGHUP where a child was forked.
  unfoldable pub stops : Arrival Socket File → Bool
  stops (hup, sys) = is_done (fork_child sys addr ln)
  stops (usr2, sys) = false
  stops (int, sys) = true
  stops (quit, sys) = true

  -- SIGHUP and SIGUSR2 have at most one child each.
  unfoldable pub children : Arrival Socket File → List ℕ
  children (hup, sys) = pid_of (fork_child sys addr ln)
  children (usr2, sys) = pid_of (fork_child sys addr ln)
  children (int, sys) = []
  children (quit, sys) = []

  unfoldable pub all_children : List (Arrival Socket File) → List ℕ
  all_children [] = []
  all_children (a ∷ rest) = children a ++ all_children rest

  wait_continues :
      (a : Arrival Socket File) (rest : List (Arrival Socket File))
      → stops a ≡ false
      → wait_for_signals addr ln (a ∷ rest)
        ≡ with_children (children a) (wait_for_signals addr ln rest)
  unfolding wait_for_signals stops children
  wait_continues (hup, sys) rest h = on_hup_failed sys.shutdown (fork_child sys addr ln) _ h
  wait_continues (usr2, sys) rest h = on_usr2_children (fork_child sys addr ln) _
  wait_continues (int, sys) rest h = absurd (cc h)
  wait_continues (quit, sys) rest h = absurd (cc h)

  wait_stops :
      (a : Arrival Socket File) (rest : List (Arrival Socket File))
      → stops a ≡ true
      → wait_for_signals addr ln (a ∷ rest) ≡ returned (children a) a.1.shutdown
  unfolding wait_for_signals stops children
  wait_stops (hup, sys) rest h = on_hup_done sys.shutdown (fork_child sys addr ln) _ h
  wait_stops (usr2, sys) rest h = absurd (cc h)
  wait_stops (int, sys) rest h = refl
  wait_stops (quit, sys) rest h = refl

  -- As long as no signal stops it the server waits, with one child for every SIGHUP or SIGUSR2 whose
  -- fork succeeded; the first one that stops it (SIGINT, SIGQUIT, or SIGHUP once a child was forked)
  -- makes the function return what Shutdown gives, with the children until then and the one of
  -- that signal, and no later signal is looked at.
  pub wait-first_stop :
      (before : List (Arrival Socket File)) (a : Arrival Socket File)
      (rest : List (Arrival Socket File))
      → All (λ b. stops b ≡ false) before
      → stops a ≡ true
      → (wait_for_signals addr ln before ≡ waiting (all_children before))
        × (wait_for_signals addr ln (before ++ a ∷ rest)
            ≡ returned (all_children before ++ children a) a.1.shutdown)
  unfolding wait_for_signals all_children with_children
  wait-first_stop [] a rest h stop = (refl, wait_stops a rest stop)
  wait-first_stop (b ∷ bs) a rest h stop =
      let (now, later) = wait-first_stop bs a rest h.1 stop in
      (
        wait_continues b bs h.0 ∙ ap (with_children (children b)) now,
        wait_continues b (bs ++ a ∷ rest) h.0
            ∙ ap (with_children (children b)) later
            ∙ ap (λ pids. returned pids a.1.shutdown)
                (sym (append_assoc (children b) (all_children bs) (children a))),
      )
