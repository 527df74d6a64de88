-- ===== src/World.antt =====
-- The state of the daemon beside the manager's lists, and what it reads from outside: the globals of
-- __init__.py, config.py and session.py, and the session objects (session.py, modules/session/*.py).
use blankie.Prelude.{ℕ, String, List, [], ◌∷◌, Bool, false, Option, none, some, if◌then◌else◌}
use blankie.Prelude.Int.{ℤ}
use blankie.Exec.{Exec, return, exception, pure, throw}
use blankie.Spec.{Spec, Values, spec_eq, str_eq}
use blankie.UserConfig.{UserConfig}

-- A point in time or a duration, as a float: a number of milliseconds, or one of the infinities.
-- (The source's numbers are seconds; the smallest step in its computations is a millisecond.)
pub data Moment : Type 0 where
  minus_inf : Moment
  at : ℤ → Moment
  plus_inf : Moment

-- What `get_idle_since` of a session returns: `nan` asks to ignore the session.
pub data Reading : Type 0 where
  nan : Reading
  since : Moment → Reading

-- Session objects, by class, with their attributes. The `idle_since` of an X11 session is `none`
-- where the source holds -1.
pub data Session : Type 0 where
  x11 : (idle : Bool) → (idle_since : Option ℤ) → Session
  tty : Session
  remote : (idle_since : Reading) → Session
  wake_lock : Session

-- What the daemon reads from outside: the clock, the output of `xprintidle`, and the modification
-- times of TTY devices; `none` where the call raises.
pub record Outside : Type 0 where
  pub now : ℤ
  pub xprintidle : Spec → Option ℕ
  pub getmtime : Spec → Option ℤ

-- What `get_idle_since` depends on: `state.sleeping`, `session_specs`, and the session objects of
-- `module_instances`.
pub record Sensors : Type 0 where
  pub outside : Outside
  pub sleeping : Bool
  pub session_specs : List Spec
  pub sessions : List (Spec × Session)

-- The functions in `module.selectors`, by the file that registers them. A launcher
-- (`PerSessionModuleLauncher`) is given by its session type, the name of its modules, and their
-- further parameters.
pub data Selector : Type 0 where
  core : Selector
  configuration : Selector
  session_set : Selector
  launcher : (session_type per_session_name : String) → Values → Selector
  lock_state : Selector
  shutting_down : Selector

pub record World : Type 0 where
  pub sensors : Sensors
  -- `state.locked`
  pub locked : Bool
  -- The module `blankie_user_config`, and the attributes of `configurator`.
  pub config : Option UserConfig
  pub modules : List Spec
  pub idle_timers : List ℕ
  pub bus_key : Option (List ℕ)
  -- `unlock_notification_fds`, by number, and those that were told of an unlock.
  pub waiting : List ℕ
  pub notified : List ℕ
  -- `module.selectors`, and whether the PID file is there.
  pub selectors : List (String × Selector)
  pub pid_file : Bool

abbrev pub sensing {ℓ} : {A : Type ℓ} → Exec Sensors A → Exec World A
sensing act w = let (r, v) = act w.sensors in (r, record w { sensors = v })

-- The object of a session spec that `module.get` instantiates, by the name of its class.
unfoldable pub new_session : Spec → Option Session
new_session s =
    if str_eq s.name "session.x11"
    then some (x11 false none)
    else if str_eq s.name "session.tty"
    then some tty
    else if str_eq s.name "session.remote"
    then some (remote nan)
    else if str_eq s.name "session.wake_lock"
    then some wake_lock
    else none

unfoldable pub find : List (Spec × Session) → Spec → Option Session
find [] s = none
find ((t, x) ∷ l) s = if spec_eq t s then some x else find l s

-- Assignment to attributes of the object of a spec.
unfoldable pub put : List (Spec × Session) → Spec → Session → List (Spec × Session)
put [] s y = (s, y) ∷ []
put ((t, x) ∷ l) s y = if spec_eq t s then (t, y) ∷ l else (t, x) ∷ put l s y

-- `module.get(spec)` for a session spec. Objects of other modules have no `get_idle_since` and no
-- `invalidate`, so that the calls which follow raise.
create : Spec → Option Session → Exec Sensors Session
create s none w = throw (exception "AttributeError") w
create s (some x) w = (return x, record w { sessions = put w.sessions s x })

found_or_create : Spec → Option Session → Exec Sensors Session
unfolding create
found_or_create s none = create s (new_session s)
found_or_create s (some x) = pure x

unfoldable pub get_session : Spec → Exec Sensors Session
unfolding found_or_create
get_session s w = found_or_create s (find w.sessions s) w

unfoldable pub put_session : Spec → Session → Sensors → Sensors
put_session s x w = record w { sessions = put w.sessions s x }
