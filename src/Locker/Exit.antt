-- ===== src/Locker/Exit.antt =====
-- Which exits of a lock screen unlock the system (modules/i3lock.py, modules/physlock.py).
use blankie.Prelude.{ℕ, Bool, ◌≡◌, ◌≢◌, ◌⊎◌, some, arith}
use blankie.Exec.{Exec, return, raise, exception}
use blankie.Session.{Daemon, unlock}
use blankie.Locker.{Locker, gone, refused, i3lock_stop, physlock_stop, handle_exit}

module _ (update : Exec Daemon (Unit {0})) where
  -- The notification that the lock screen has exited unlocks the system if it is about the process
  -- that the module runs; a second one about the same process, or one about any other, does
  -- nothing.
  pub handle_exit-once :
      (p : ℕ) (x : Locker)
      → let y = (handle_exit update p x).1 in
        ((x.pid ≡ some p) × (y.daemon ≡ (unlock update x.daemon).1)
          ⊎ (x.pid ≢ some p) × (handle_exit update p x ≡ (return tt, x)))
        × (handle_exit update p y ≡ (return tt, y))
  unfolding handle_exit
  handle_exit-once p x = ground arith

-- If the program's process was gone: after `stop`, also one that raised since then, a late
-- notification does not unlock the system. If a signal could not be sent to it: `stop` raised and
-- changed nothing, so that the program's exit still unlocks the system, once.
pub stop-handle_exit :
    (update : Exec Daemon (Unit {0})) (unlocks : Bool) (p q : ℕ) (x : Locker)
    → x.pid ≡ some p
    → (let y = (i3lock_stop gone x).1 in handle_exit update q y ≡ (return tt, y))
      × (let y = (physlock_stop gone unlocks x).1 in handle_exit update q y ≡ (return tt, y))
      × (i3lock_stop refused x ≡ (raise (exception "PermissionError"), x))
      × (physlock_stop refused unlocks x ≡ (raise (exception "PermissionError"), x))
      × (let y = (handle_exit update p x).1 in
          (y.daemon ≡ (unlock update x.daemon).1) × (handle_exit update q y ≡ (return tt, y)))
unfolding handle_exit i3lock_stop physlock_stop
stop-handle_exit update unlocks p q x running = ground arith
