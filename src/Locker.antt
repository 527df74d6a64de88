-- ===== src/Locker.antt =====
-- modules/i3lock.py and modules/physlock.py: the programs that show the lock screen. When such a
-- program exits by itself, the system is unlocked.
pub mod Exit
use blankie.Prelude.{ℕ, Bool, true, false, Option, none, some, if◌then◌else◌, ◌==◌}
use blankie.Exec.{Exec, user_error, exception, return, pure, throw, gets, modify, ◌>>=◌, ◌>>◌}
use blankie.Session.{Daemon, lock, unlock}

-- The attributes of `I3LockPerSessionModule`, or of `PhysLockModule`: the program's PID, and whether
-- there is a thread that waits for its exit.
pub record Locker : Type 0 where
  pub pid : Option ℕ
  pub waiter : Bool
  pub daemon : Daemon

abbrev pub on_daemon : Exec Daemon (Unit {0}) → Exec Locker (Unit {0})
on_daemon act x = let (r, m) = act x.daemon in (r, record x { daemon = m })

-- What starting i3lock comes to: it fails; no forked process is found with its PID; or it runs.
pub data Launch : Type 0 where
  failed : Launch
  vanished : ℕ → Launch
  launched : ℕ → Launch

abbrev launch_i3lock : Launch → Exec Locker (Unit {0})
launch_i3lock failed = throw (user_error "mod_i3lock: i3lock failed to start!")
launch_i3lock (vanished p) =
    modify (λ x. record x { pid = some p })
    >> throw (user_error "mod_i3lock: Failed to find the PID of the forked i3lock process.")
launch_i3lock (launched p) = modify (λ x. record x { pid = some p; waiter = true })

unfoldable pub i3lock_start : Launch → Exec Locker (Unit {0})
i3lock_start launch x = i3lock_start_from x.pid x
  where
    i3lock_start_from : Option ℕ → Exec Locker (Unit {0})
    i3lock_start_from none = launch_i3lock launch
    i3lock_start_from (some p) = pure tt

-- `self.i3lock_reader_thread.join()`, which raises if there is no thread.
abbrev pub join_waiter : Exec Locker (Unit {0})
join_waiter x =
    if x.waiter
    then (return tt, record x { waiter = false })
    else throw (exception "AttributeError") x

-- What becomes of sending the process a signal and waiting for its end: it is gone then; or a call of
-- `os.kill` fails otherwise than because there is no such process.
pub data Kill : Type 0 where
  gone : Kill
  refused : Kill

abbrev kill : Kill → Exec Locker (Unit {0})
kill gone = pure tt
kill refused = throw (exception "PermissionError")

abbrev pub stop_from : Kill → Option ℕ → Exec Locker (Unit {0}) → Exec Locker (Unit {0})
stop_from k none after = pure tt
stop_from k (some p) after =
    kill k >> (modify (λ x. record x { pid = none }) >> (join_waiter >> after))

-- `stop` of i3lock: it sends SIGTERM and polls until the process is gone.
unfoldable pub i3lock_stop : Kill → Exec Locker (Unit {0})
i3lock_stop k x = stop_from k x.pid (pure tt) x

-- `start` and `stop` of physlock; `runs` is whether it can be run, and `unlocks` whether
-- `physlock -L` succeeds.
unfoldable pub physlock_start : (runs : Bool) → ℕ → Exec Locker (Unit {0})
physlock_start runs p x = physlock_start_from x.pid x
  where
    physlock_start_from : Option ℕ → Exec Locker (Unit {0})
    physlock_start_from none =
        if runs
        then modify (λ x. record x { pid = some p; waiter = true })
        else throw (exception "FileNotFoundError")
    physlock_start_from (some q) = pure tt

unfoldable pub physlock_stop : Kill → (unlocks : Bool) → Exec Locker (Unit {0})
physlock_stop k unlocks x =
    stop_from k x.pid (if unlocks then pure tt else throw (exception "CalledProcessError")) x

module _ (update : Exec Daemon (Unit {0})) where
  abbrev unlocked_by : Option ℕ → ℕ → Exec Locker (Unit {0})
  unlocked_by none p = pure tt
  unlocked_by (some q) p =
      if p == q then modify (λ x. record x { pid = none }) >> on_daemon (unlock update) else pure tt

  -- `i3lock_handle_exit` and `physlock_handle_exit`
  unfoldable pub handle_exit : ℕ → Exec Locker (Unit {0})
  handle_exit p x = unlocked_by x.pid p x

  -- The module `lock` (modules/lock.py).
  unfoldable pub lock_module_start : Exec Daemon (Unit {0})
  lock_module_start = lock update

  unfoldable pub lock_module_stop : Exec Daemon (Unit {0})
  lock_module_stop = unlock update
