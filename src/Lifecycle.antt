-- ===== src/Lifecycle.antt =====
-- The daemon's end and its reload (daemon.py and config.py): `update` is the function of module.py.
pub mod Shutdown
pub mod Start
use blankie.Prelude.{List, Bool, true, false}
use blankie.Exec.{Exec, return, pure, modify, ◌>>=◌, ◌>>◌, try_except}
use blankie.World.{World, shutting_down}
use blankie.Manager.{on_world}
use blankie.EventLoop.{EventLoop, call}
use blankie.Selectors.{register, set_selectors}
use blankie.Session.{Daemon}

abbrev pub install_shutdown : Daemon → Daemon
install_shutdown m = set_selectors (register "95-shutdown" shutting_down m.world.selectors) m

-- `os.remove(pid_file)`, also if it is gone.
abbrev pub remove_pid_file : Daemon → Daemon
remove_pid_file m = record m { world = record m.world { pid_file = false } }

abbrev on_daemon : {T : Type 0} → Exec Daemon (Unit {0}) → Exec (EventLoop T Daemon) (Unit {0})
on_daemon act x = let (r, m) = act x.world in (r, record x { world = m })

module _ (update : Exec Daemon (Unit {0})) where
  -- `shutdown`
  unfoldable pub shutdown : Exec Daemon (Unit {0})
  unfolding register
  shutdown = do modify install_shutdown; update; modify remove_pid_file

  -- `stop`: an exception of `shutdown` is logged.
  unfoldable pub stop : {T : Type 0} → Exec (EventLoop T Daemon) (Unit {0})
  unfolding shutdown
  stop = do
    modify (λ x. record x { stopping = true })
    on_daemon (try_except shutdown (λ _. pure tt))

  -- `reload` of config.py; `load` reads the configuration file.
  unfoldable pub reload : (load : Exec World (Unit {0})) → Exec Daemon (Unit {0})
  reload load = on_world load >> update

-- The handlers of SIGINT and SIGTERM, and of SIGHUP; `stop_task` and `reload_task` are the tasks that
-- call `stop` and `reload`.
module _ {T : Type 0} where
  unfoldable pub signal_stop : (stop_task : T) → EventLoop T Daemon → EventLoop T Daemon
  signal_stop stop_task x = call stop_task x

  unfoldable pub sighup : (reload_task : T) → EventLoop T Daemon → EventLoop T Daemon
  sighup reload_task x = call reload_task x
