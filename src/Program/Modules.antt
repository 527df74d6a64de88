-- ===== src/Program/Modules.antt =====
-- The program's modules as the manager's classes: which of them call `update` when they are started
-- or stopped (session.py, modules/session/*.py, modules/lock.py and the launchers).
use blankie.Prelude.{String, Bool, ◌≡◌, ◌≢◌, arith, if◌then◌else◌}
use blankie.Exec.{Exec, exception, throw}
use blankie.Spec.{Spec, spec_eq, spec_eq_iff, str_eq}
use blankie.World.{World, launcher}
use blankie.Manager.{Classes, on_world}
use blankie.Session.{Daemon}
use blankie.Session.Modules.{session_start, session_stop}
use blankie.Selectors.{plain, selectors_of, launcher_start, launcher_stop}
use blankie.Locker.{lock_module_start, lock_module_stop}
use blankie.Loading.Dependencies.{get_dependencies}
use blankie.Program.Launchers.{selector_key}

-- The attributes of a launcher's class: `session_type` and `per_session_name`.
pub record Launcher : Type 0 where
  pub session_type : String
  pub per_session_name : String

abbrev pub xss : Launcher
xss = record { session_type = "session.x11"; per_session_name = "internal-xss-session" }

abbrev pub tty_idle : Launcher
tty_idle = record { session_type = "session.tty"; per_session_name = "internal-tty_idle-session" }

abbrev pub i3lock : Launcher
i3lock = record { session_type = "session.x11"; per_session_name = "internal-i3lock-session" }

abbrev pub xset : Launcher
xset = record { session_type = "session.x11"; per_session_name = "internal-xset-session" }

abbrev pub dpms : Launcher
dpms = record { session_type = "session.x11"; per_session_name = "internal-dpms-session" }

abbrev pub xkbmap : Launcher
xkbmap = record { session_type = "session.x11"; per_session_name = "internal-xkbmap-session" }

-- What a module is to the manager: `others` do not call `update` from `start` and `stop`.
pub data Kind : Type 0 where
  session : Kind
  tty_session : Kind
  launching : Launcher → Kind
  locking : Kind
  others : Kind

launcher_kind : String → Kind
launcher_kind name =
    if str_eq name "xss"
    then launching xss
    else if str_eq name "tty_idle"
    then launching tty_idle
    else if str_eq name "i3lock"
    then launching i3lock
    else if str_eq name "xset"
    then launching xset
    else if str_eq name "dpms"
    then launching dpms
    else if str_eq name "xkbmap"
    then launching xkbmap
    else others

session_kind : String → Kind
unfolding launcher_kind
session_kind name =
    if str_eq name "session.tty"
    then tty_session
    else if str_eq name "session.x11"
    then session
    else if str_eq name "session.remote"
    then session
    else if str_eq name "session.wake_lock"
    then session
    else launcher_kind name

-- By the class of the instance. (`LockModule` takes no parameters: with any there is no instance.)
unfoldable pub kind_of : Spec → Kind
unfolding session_kind
kind_of s = if spec_eq s (plain "lock") then locking else session_kind s.name

launcher_kind-ne-locking : (name : String) → launcher_kind name ≢ locking
unfolding launcher_kind
launcher_kind-ne-locking name h = ground arith

session_kind-ne-locking : (name : String) → session_kind name ≢ locking
unfolding session_kind
session_kind-ne-locking name h = ground (arith, launcher_kind-ne-locking name)

-- Only the module "lock" locks.
pub kind_of-locking : (s : Spec) → kind_of s ≡ locking → s ≡ plain "lock"
unfolding kind_of
kind_of-locking s h = ground (arith, spec_eq_iff s (plain "lock"), session_kind-ne-locking s.name)

-- The rest of the program and of the machine: what `get` does, the text of an instance, whether the
-- device of a TTY session can be opened, and the methods of the other modules.
pub record Rest : Type 0 where
  pub get : Spec → Exec World (Unit {0})
  pub repr : Spec → String
  pub opens : Spec → Bool
  pub start : Spec → Exec World (Unit {0})
  pub stop : Spec → Exec World (Unit {0})
  pub reconfigure : Spec → Spec → Exec World Bool
  pub rekey : Spec → Spec → World → World

module _ (rest : Rest) (update : Exec Daemon (Unit {0})) where
  unfoldable pub start : Spec → Kind → Exec Daemon (Unit {0})
  unfolding session_start launcher_start lock_module_start
  start s session = session_start update
  start s tty_session = if rest.opens s then session_start update else throw (exception "OSError")
  start s (launching l) =
      launcher_start update (selector_key (rest.repr s) l.session_type s.name)
        (launcher l.session_type l.per_session_name s.params)
  start s locking = lock_module_start update
  start s others = on_world (rest.start s)

  unfoldable pub stop : Spec → Kind → Exec Daemon (Unit {0})
  unfolding session_stop launcher_stop lock_module_stop
  stop s session = session_stop update
  stop s tty_session = session_stop update
  stop s (launching l) = launcher_stop update (selector_key (rest.repr s) l.session_type s.name)
  stop s locking = lock_module_stop update
  stop s others = on_world (rest.stop s)

-- The classes of the program.
unfoldable pub program : Rest → (is_systemd : Bool) → Exec Daemon (Unit {0}) → Classes World
unfolding start stop kind_of
program rest is_systemd update = record {
  get = rest.get;
  start = λ s. start rest update s (kind_of s);
  stop = λ s. stop rest update s (kind_of s);
  reconfigure = rest.reconfigure;
  rekey = rest.rekey;
  dependencies = get_dependencies;
  selectors = selectors_of is_systemd;
}
