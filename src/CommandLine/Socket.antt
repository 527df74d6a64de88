-- ===== src/CommandLine/Socket.antt =====
-- The client's side of the socket (server.py), and the user's session (session.py).
use blankie.Prelude.{
  ℕ, String, List, [], ◌∷◌, ◌++◌, Bool, true, false, Option, none, some, if◌then◌else◌,
}
use blankie.Exec.{Exec, user_error, return, pure, throw, modify, ◌>>=◌}
use blankie.Spec.{Spec, str_eq, nil, cons, text}
use blankie.Server.{Chunk, bytes, Command, attach_to, detach_from}
use blankie.Server.Listener.{Errand, wake_lock as inhibit, command}

-- What the user sees: on the standard output, on the standard error, and in the log.
pub data Output : Type 0 where
  help_text : Output
  usage : Output
  reply : List Chunk → Output
  acquired : Output
  attaching_to : Spec → Output
  attached : Spec → Output
  detached : Spec → Output
  failed_to_attach : Spec → List Chunk → Output
  failed_to_detach : Spec → List Chunk → Output
  no_pid_file : Output
  daemon_stopped : Output
  fatal_error : String → Output
  unknown_command : String → Output

-- The process of the command, and the rest of the machine, where the daemon runs or does not.
pub record Client (D : Type 0) : Type 0 where
  pub machine : D
  pub output : List Output

-- What the process asks the machine. `serve` is the daemon's answer to a line, up to the end of the
-- connection; `still_running` tells whether the daemon's process is there when it is asked for the
-- n-th time; `start` is `daemon.start`, `load` is `config.load`,
-- and `make_run_dir` is `os.makedirs` with the run directory, all in this process.
pub record Machine (D : Type 0) : Type 0 where
  pub display : Option String
  pub tty_name : Option String
  pub listening : D → Bool
  pub serve : Errand → D → List Chunk × D
  pub has_pid_file : D → Bool
  pub still_running : D → ℕ → Bool
  pub start : (fork : Bool) → Exec D ℕ
  pub make_run_dir : Exec D (Unit {0})
  pub load : Exec D (Unit {0})

-- The functions `get_session` of modules/session/x11.py and tty.py.
abbrev pub x11_session : Option String → Option Spec
x11_session none = none
x11_session (some display) =
    some (record { name = "session.x11"; params = cons (text display) nil })

abbrev pub tty_session : Option String → Option Spec
tty_session none = none
tty_session (some tty_name) =
    some (record { name = "session.tty"; params = cons (text tty_name) nil })

-- `a or b`
abbrev first_of : Option Spec → Option Spec → Option Spec
first_of (some s) other = some s
first_of none other = other

-- `result == b'ok'`; the text of an exception is another one.
abbrev pub is_ok : List Chunk → Bool
is_ok (bytes s ∷ []) = str_eq s "ok"
is_ok chunks = false

-- What `remote_attach_or_detach` logs.
abbrev pub attach_report : Spec → List Chunk → Output
attach_report s answer = if is_ok answer then attached s else failed_to_attach s answer

abbrev pub detach_report : Spec → List Chunk → Output
detach_report s answer = if is_ok answer then detached s else failed_to_detach s answer

module _ {D : Type 0} where
  abbrev pub print : Output → Exec (Client D) (Unit {0})
  print o = modify (λ c. record c { output = c.output ++ o ∷ [] })

  abbrev pub on_machine {ℓ} : {A : Type ℓ} → Exec D A → Exec (Client D) A
  on_machine act c = let (r, m) = act c.machine in (r, record c { machine = m })

module _ {D : Type 0} (machine : Machine D) where
  -- `_send`, and what the daemon answers.
  unfoldable pub send : Errand → Exec (Client D) (List Chunk)
  send e = λ c.
      (if machine.listening c.machine
          then on_machine (λ m. let (answer, n) = machine.serve e m in (return answer, n))
          else throw (user_error "Failed to connect to daemon UNIX socket"))
        c

  unfoldable pub notify : Errand → Exec (Client D) (Unit {0})
  unfolding send
  notify e = send e >>= λ _. pure tt

  unfoldable pub query : Command → Exec (Client D) (List Chunk)
  unfolding send
  query c = send (command c)

  -- `wake_lock`, which returns when the daemon closes the connection.
  abbrev acknowledge : List Chunk → Exec (Client D) (Unit {0})
  acknowledge (bytes line ∷ more) =
      if str_eq line "Wake lock acquired.\n"
      then print acquired
      else throw (user_error "Failed to acquire wake lock.")
  acknowledge more = throw (user_error "Failed to acquire wake lock.")

  unfoldable pub hold_wake_lock : Exec (Client D) (Unit {0})
  unfolding send
  hold_wake_lock = send inhibit >>= acknowledge

  unfoldable pub get_session : Option Spec
  get_session = first_of (x11_session machine.display) (tty_session machine.tty_name)

  -- `remote_attach_or_detach`, with the session to use.
  unfoldable pub remote_attach_or_detach :
      (do_attach : Bool) → Option Spec → Exec (Client D) (Unit {0})
  unfolding query
  remote_attach_or_detach do_attach none = throw (user_error "No session detected.")
  remote_attach_or_detach true (some s) =
      query (attach_to s) >>= λ answer. print (attach_report s answer)
  remote_attach_or_detach false (some s) =
      query (detach_from s) >>= λ answer. print (detach_report s answer)
