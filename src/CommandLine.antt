-- ===== src/CommandLine.antt =====
-- The program that the user runs: `main` of __init__.py, the client side of the socket (server.py),
-- `get_session` and `remote_attach_or_detach` of session.py, and `stop_remote` of daemon.py.
mod Socket
unfoldable pub use Socket.*
pub mod Refines
use blankie.Prelude.{
  ℕ, zero, suc, String, List, [], ◌∷◌, ◌++◌, Bool, true, false, Option, none, some, if◌then◌else◌,
}
use blankie.Exec.{
  Exec, Error, user_error, exception, return, pure, throw, diverge, gets, modify, try_except, ◌>>=◌,
  ◌>>◌,
}
use blankie.Spec.{Spec, str_eq, nil, cons, text}
use blankie.Server.{
  Chunk, bytes, Command, status as ask_status, stop_daemon, reload_config, lock_screen,
  unlock_screen, attach_to, detach_from,
}
use blankie.Server.Listener.{Errand, wake_lock as inhibit, command}

-- The cases of the `match` on the first argument.
pub data Word : Type 0 where
  help : Word
  start : Word
  foreground : Word
  stop : Word
  reload : Word
  status : Word
  lock : Word
  unlock : Word
  wake_lock : Word
  attach : Word
  detach : Word
  module_command : Word
  unknown : Word

abbrev words : List (String × Word)
words =
    ("help", help)
    ∷ ("start", start)
    ∷ ("debug-run-in-foreground", foreground)
    ∷ ("stop", stop)
    ∷ ("reload", reload)
    ∷ ("status", status)
    ∷ ("lock", lock)
    ∷ ("unlock", unlock)
    ∷ ("wake-lock", wake_lock)
    ∷ ("attach", attach)
    ∷ ("detach", detach)
    ∷ ("module", module_command)
    ∷ []

abbrev look_up : String → List (String × Word) → Word
look_up s [] = unknown
look_up s ((t, w) ∷ l) = let rest = look_up s l in if str_eq t s then w else rest

unfoldable pub word_of : String → Word
word_of s = look_up s words

module _ {D : Type 0} where
  -- `cli_command` of module.py, as `main` calls it: `shlex.split` is given a list, which it takes for
  -- a stream, and a list has no `read`.
  abbrev cli_command : List String → Exec (Client D) (Unit {0})
  cli_command args = throw (exception "AttributeError")

module _ {D : Type 0} (machine : Machine D) where
  -- The loop of `stop_remote` until the daemon's process is gone.
  unfoldable pub await_exit : (fuel asked : ℕ) → Exec (Client D) (Unit {0})
  await_exit zero n = diverge
  await_exit (suc fuel) n =
      let rest = await_exit fuel (suc n) in
      λ c. (if machine.still_running c.machine n then rest else print daemon_stopped) c

  -- `stop_remote`; the result is the exit status.
  unfoldable pub stop_remote : ℕ → Exec (Client D) ℕ
  unfolding notify await_exit
  stop_remote fuel = λ c.
      (if machine.has_pid_file c.machine
          then notify machine (command stop_daemon) >> (await_exit fuel 0 >> pure 0)
          else print no_pid_file >> pure 2)
        c

  -- What follows a successful `daemon.start` of the command `start`.
  abbrev attach_current : Option Spec → Exec (Client D) ℕ
  unfolding remote_attach_or_detach
  attach_current none = pure 0
  attach_current (some s) =
      print (attaching_to s) >> (remote_attach_or_detach machine true (some s) >> pure 0)

  abbrev started : ℕ → Exec (Client D) ℕ
  unfolding attach_current get_session
  started zero = attach_current (get_session machine)
  started (suc n) = pure (suc n)

  abbrev show_reply : Command → Exec (Client D) ℕ
  unfolding query
  show_reply c = query machine c >>= λ answer. print (reply answer) >> pure 0

  abbrev wake_lock_without : List String → Exec (Client D) ℕ
  unfolding hold_wake_lock
  wake_lock_without [] = hold_wake_lock machine >> pure 0
  wake_lock_without (arg ∷ args) = throw (user_error "wake-lock does not accept arguments.")

  -- The `match`. `status`, `lock` and `unlock` pass all arguments on, and the daemon reads the first.
  unfoldable pub dispatch : (fuel : ℕ) → String → Word → List String → Exec (Client D) ℕ
  unfolding started show_reply wake_lock_without stop_remote notify remote_attach_or_detach
      get_session
  dispatch fuel name help args = print help_text >> pure 0
  dispatch fuel name start args = on_machine (machine.start true) >>= started
  dispatch fuel name foreground args = on_machine (machine.start false)
  dispatch fuel name stop args = stop_remote fuel
  dispatch fuel name reload args = notify machine (command reload_config) >> pure 0
  dispatch fuel name status args = show_reply ask_status
  dispatch fuel name lock args = show_reply lock_screen
  dispatch fuel name unlock args = show_reply unlock_screen
  dispatch fuel name wake_lock args = wake_lock_without args
  dispatch fuel name attach args =
      remote_attach_or_detach machine true (get_session machine) >> pure 0
  dispatch fuel name detach args =
      remote_attach_or_detach machine false (get_session machine) >> pure 0
  dispatch fuel name module_command args = cli_command args >> pure 0
  dispatch fuel name unknown args = print (unknown_command name) >> pure 1

  -- `except UserError`; any other exception ends the program with a traceback.
  abbrev pub on_error : Error → Exec (Client D) ℕ
  on_error (user_error m) = print (fatal_error m) >> pure 1
  on_error (exception e) = throw (exception e)

  unfoldable pub main : (fuel : ℕ) → List String → Exec (Client D) ℕ
  unfolding dispatch word_of
  main fuel [] = print usage >> pure 2
  main fuel (name ∷ args) =
      try_except
        (on_machine machine.make_run_dir
          >> (on_machine machine.load >> dispatch fuel name (word_of name) args))
        on_error
