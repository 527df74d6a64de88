-- ===== src/Lifecycle/Start.antt =====
-- daemon.py: `start`, in the process that becomes the daemon, and what its parent learns of it.
pub mod Cleanup
use blankie.Prelude.{
  ℕ, String, List, [], ◌∷◌, Bool, true, false, ◌≡◌, ◌≢◌, refl, ◌⊎◌, inl, inr, if◌then◌else◌, arith,
}
use blankie.Exec.{
  Exec, Outcome, return, raise, out_of_fuel, exception, pure, throw, modify, gets, try_except,
  ◌>>=◌, ◌>>◌, Outcome-cases,
}
use blankie.World.{World, shutting_down}
use blankie.EventLoop.{EventLoop}
use blankie.Session.{Daemon}
use blankie.Lifecycle.{shutdown, stop, install_shutdown, remove_pid_file}

-- The daemon's process: its event loop, whether `atexit` has `shutdown`, whether the signal handlers
-- are installed, whether `event_loop_thread` is set, and whether it wrote "ok" to its parent.
pub record Process (T : Type 0) : Type 0 where
  pub loop : EventLoop T Daemon
  pub at_exit : Bool
  pub handlers : Bool
  pub event_loop_thread : Bool
  pub ready : Bool

-- What becomes of writing the PID file: it is written; it cannot be opened; or it is created, and
-- writing to it fails.
pub data Writing : Type 0 where
  written : Writing
  not_opened : Writing
  not_written : Writing

abbrev pub create_pid_file : Daemon → Daemon
create_pid_file m = record m { world = record m.world { pid_file = true } }

abbrev pub write_pid_file : Writing → Exec Daemon (Unit {0})
write_pid_file written = modify create_pid_file
write_pid_file not_opened = throw (exception "OSError")
write_pid_file not_written = modify create_pid_file >> throw (exception "OSError")

module _ {T : Type 0} where
  abbrev pub on_loop : Exec (EventLoop T Daemon) (Unit {0}) → Exec (Process T) (Unit {0})
  on_loop act p = let (r, l) = act p.loop in (r, record p { loop = l })

  abbrev pub on_daemon : Exec Daemon (Unit {0}) → Exec (Process T) (Unit {0})
  on_daemon act p =
      let (r, m) = act p.loop.world in (r, record p { loop = record p.loop { world = m } })

  abbrev pub has_pid_file : Process T → Bool
  has_pid_file p = p.loop.world.world.pid_file

  -- `assert event_loop_thread is None`, and its assignment.
  unfoldable pub become_main_thread : Exec (Process T) (Unit {0})
  become_main_thread p =
      if p.event_loop_thread
      then throw (exception "AssertionError") p
      else (return tt, record p { event_loop_thread = true })

  -- `update` is that of module.py (`config.reconfigure` calls it), and `run` the event loop.
  module _ (update : Exec Daemon (Unit {0})) (run : Exec (EventLoop T Daemon) (Unit {0})) where
    -- `update`, with its `assert blankie.daemon.is_main_thread()`: the thread is the one that runs
    -- `start`, so that it is the main thread once `event_loop_thread` is set.
    abbrev pub asserted_update : (event_loop_thread : Bool) → Exec Daemon (Unit {0})
    asserted_update false = throw (exception "AssertionError")
    asserted_update true = update

    -- From the fork to the sign of readiness.
    unfoldable pub boot : Writing → Exec (Process T) (Unit {0})
    unfolding become_main_thread
    boot w = do
      modify (λ p. record p { handlers = true })
      on_daemon (write_pid_file w)
      become_main_thread
      λ p. on_daemon (asserted_update p.event_loop_thread) p
      modify (λ p. record p { ready = true })

    -- The event loop, and the exit status.
    unfoldable pub serve : Exec (Process T) ℕ
    serve = try_except (on_loop run >> pure 0) (λ _. pure 1)

    -- `stop`, which also takes `shutdown` from `atexit`.
    unfoldable pub stop_process : Exec (Process T) (Unit {0})
    stop_process = modify (λ p. record p { at_exit = false }) >> λ p.
        on_loop (stop (asserted_update p.event_loop_thread)) p

    unfoldable pub start_child : Writing → Exec (Process T) ℕ
    unfolding boot serve stop_process
    start_child w = do boot w; status ← serve; stop_process; pure status

    -- The end of the interpreter: what is registered with `atexit` runs, and its exceptions are
    -- printed.
    unfoldable pub run_at_exit : Process T → Process T
    run_at_exit p =
        if p.at_exit then (on_daemon (shutdown (asserted_update p.event_loop_thread)) p).1 else p

    -- The child's whole life.
    unfoldable pub live : Writing → Process T → Process T
    unfolding start_child run_at_exit
    live w p = run_at_exit (start_child w (record p { at_exit = true })).1

    -- What `start` returns to the parent: it waits for "ok", or for the end of the pipe.
    unfoldable pub start : Writing → Process T → ℕ
    unfolding live
    start w p = if (live w p).ready then 0 else 1
