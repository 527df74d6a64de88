-- ===== src/Server.antt =====
-- modules/server.py: the commands that arrive on the UNIX socket, performed on the main thread.
pub mod Replies
pub mod Listener
use blankie.Prelude.{
  String, List, [], ◌∷◌, ◌++◌, Bool, true, false, Option, none, some, if◌then◌else◌,
}
use blankie.Exec.{
  Exec, Error, user_error, exception, Outcome, return, raise, out_of_fuel, pure, throw, gets,
  modify, ◌>>=◌, ◌>>◌, try_except,
}
use blankie.Spec.{Spec}
use blankie.World.{Reading, World, Sensors, get_session, sensing}
use blankie.Idle.{session_idle_since}
use blankie.Manager.{on_world}
use blankie.EventLoop.{EventLoop}
use blankie.Lifecycle.{stop, reload}
use blankie.Session.{Daemon, attach, detach, lock, unlock}

-- What is written to a client.
pub data Chunk : Type 0 where
  bytes : String → Chunk
  lock_state : Bool → Chunk
  running_modules : List Spec → Chunk
  session_line : Spec → Reading → Chunk
  requested_modules : List Spec → Chunk
  error_text : Error → Chunk

-- The cases of the `match` on a command. The spec of `attach` and `detach` is the tuple of the
-- arguments.
pub data Command : Type 0 where
  ping : Command
  status : Command
  stop_daemon : Command
  reload_config : Command
  module_command : Spec → Command
  lock_screen : Command
  unlock_screen : Command
  attach_to : Spec → Command
  detach_from : Spec → Command
  unknown : Command

-- One request on the main thread: the daemon and its loop, what the client was sent, whether the
-- client is gone (a write raises), and `done_event`.
pub record Request (T : Type 0) : Type 0 where
  pub loop : EventLoop T Daemon
  pub written : List Chunk
  pub gone : Bool
  pub done : Bool

module _ {T : Type 0} where
  -- `handler.wfile.write`
  unfoldable pub write : Chunk → Exec (Request T) (Unit {0})
  write c x =
      if x.gone
      then throw (exception "BrokenPipeError") x
      else (return tt, record x { written = x.written ++ c ∷ [] })

  abbrev pub on_loop {ℓ} : {A : Type ℓ} → Exec (EventLoop T Daemon) A → Exec (Request T) A
  on_loop act x = let (r, l) = act x.loop in (r, record x { loop = l })

  abbrev pub on_daemon {ℓ} : {A : Type ℓ} → Exec Daemon A → Exec (Request T) A
  on_daemon act x =
      let (r, m) = act x.loop.world in (r, record x { loop = record x.loop { world = m } })

  -- A reading of one session, as `status` shows it.
  unfoldable pub show_sessions : List Spec → Exec (Request T) (Unit {0})
  unfolding write
  show_sessions [] = pure tt
  show_sessions (s ∷ ss) = do
    t ← on_daemon (on_world (sensing (get_session s >>= session_idle_since s)))
    write (session_line s t)
    show_sessions ss

  -- `print_status` of the configurator.
  unfoldable pub print_status : Exec (Request T) (Unit {0})
  unfolding write
  print_status = do
    m ← gets (λ x. x.loop.world)
    write (bytes "Configuration-requested modules:\n")
    write (requested_modules m.world.modules)

  unfoldable pub show_status : Exec (Request T) (Unit {0})
  unfolding show_sessions print_status
  show_status = do
    m ← gets (λ x. x.loop.world)
    write (lock_state m.world.locked)
    write (bytes "Running modules:\n")
    write (running_modules m.running)
    write (bytes "Sessions:\n")
    show_sessions m.world.sensors.session_specs
    print_status

  -- `except Exception as e: handler.wfile.write(bytes(str(e), …))`
  unfoldable pub reply : Exec (Request T) (Unit {0}) → Exec (Request T) (Unit {0})
  reply act = try_except (act >> write (bytes "ok")) (λ e. write (error_text e))

  -- `update`, `config.load` and the modules' `server_command` are parameters.
  module _ (update : Exec Daemon (Unit {0})) (load : Exec World (Unit {0}))
      (server_command : Spec → Exec Daemon (Unit {0})) where
    unfoldable pub lock_command : Bool → Exec (Request T) (Unit {0})
    unfolding write
    lock_command true = write (bytes "Already locked.\n")
    lock_command false = on_daemon (lock update) >> write (bytes "Locked.\n")

    unfoldable pub unlock_command : Bool → Exec (Request T) (Unit {0})
    unfolding write
    unlock_command true = on_daemon (unlock update) >> write (bytes "Unlocked.\n")
    unlock_command false = write (bytes "Already unlocked.\n")

    unfoldable pub run_command : Command → Exec (Request T) (Unit {0})
    unfolding reply lock_command unlock_command show_status
    run_command ping = write (bytes "pong\n")
    run_command status = show_status
    run_command stop_daemon = on_loop (stop update)
    run_command reload_config = on_daemon (reload update load)
    run_command (module_command s) = on_daemon (server_command s)
    run_command lock_screen = λ x. lock_command x.loop.world.world.locked x
    run_command unlock_screen = λ x. unlock_command x.loop.world.world.locked x
    run_command (attach_to s) = reply (on_daemon (attach update s))
    run_command (detach_from s) = reply (on_daemon (detach update s))
    run_command unknown = pure tt

    -- `finally: done_event.set()`
    unfoldable pub server_run_command : Command → Exec (Request T) (Unit {0})
    unfolding run_command
    server_run_command c x = let (r, y) = run_command c x in (r, record y { done = true })
