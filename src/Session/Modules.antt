-- ===== src/Session/Modules.antt =====
-- Sessions as modules: `start` and `stop` of the class Session (session.py) and of the TTY session
-- (modules/session/tty.py).
use blankie.Prelude.{Bool, true, false, if◌then◌else◌}
use blankie.Exec.{Exec, exception, throw, modify, ◌>>◌}
use blankie.Session.{Daemon}

-- The descriptor of the device that a TTY session keeps open, and the daemon.
pub record TtySession : Type 0 where
  pub fd : Bool
  pub daemon : Daemon

module _ (update : Exec Daemon (Unit {0})) where
  unfoldable pub session_start : Exec Daemon (Unit {0})
  session_start = update

  unfoldable pub session_stop : Exec Daemon (Unit {0})
  session_stop = update

  abbrev on_daemon : Exec Daemon (Unit {0}) → Exec TtySession (Unit {0})
  on_daemon act x = let (r, m) = act x.daemon in (r, record x { daemon = m })

  unfoldable pub tty_session_start : (opens : Bool) → Exec TtySession (Unit {0})
  unfolding session_start
  tty_session_start opens =
      (if opens then modify (λ x. record x { fd = true }) else throw (exception "OSError"))
      >> on_daemon session_start

  -- An open descriptor is closed.
  unfoldable pub tty_session_stop : Exec TtySession (Unit {0})
  unfolding session_stop
  tty_session_stop = on_daemon session_stop >> modify (λ x. record x { fd = false })
