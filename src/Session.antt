-- ===== src/Session.antt =====
-- session.py and the lock state of __init__.py: attaching and detaching sessions, locking and
-- unlocking. `update` is the function of module.py (`config.reconfigure` only calls it).
pub mod Attach
pub mod Invalidate
pub mod Modules
use blankie.Prelude.{
  ℕ, String, List, [], ◌∷◌, ◌++◌, Bool, true, false, Option, none, some, if◌then◌else◌,
}
use blankie.Exec.{
  Exec, Error, user_error, exception, return, pure, throw, gets, modify, ◌>>=◌, ◌>>◌, try_except,
}
use blankie.Spec.{Spec, contains, remove, spec_eq, str_eq, Value, Values, text, tuple, nil, cons}
use blankie.World.{Session, x11, World, Sensors, put_session, get_session, sensing}
use blankie.Idle.{get_sessions}
use blankie.Manager.{Manager, Selection, on_world}

-- The method `invalidate`: an X11 session forgets the time that it has read.
unfoldable pub invalidated : Session → Session
invalidated (x11 idle t) = x11 idle none
invalidated x = x

unfoldable pub invalidate_all : List (Spec × Session) → Exec Sensors (Unit {0})
unfolding invalidated
invalidate_all [] = pure tt
invalidate_all ((s, _) ∷ l) = do
  x ← get_session s
  modify (put_session s (invalidated x))
  invalidate_all l

-- `for session in get_sessions(): session.invalidate()`
unfoldable pub invalidate_sessions : Exec Sensors (Unit {0})
unfolding invalidate_all
invalidate_sessions = do
  specs ← gets (λ v. v.session_specs)
  sessions ← get_sessions specs
  invalidate_all sessions

abbrev pub Daemon : Type 0
Daemon = Manager World

abbrev pub specs_of : Daemon → List Spec
specs_of m = m.world.sensors.session_specs

-- Assignment to the set `session_specs`. (A set has no order; the list keeps the order in which its
-- elements were added.)
abbrev pub set_specs : List Spec → Daemon → Daemon
set_specs specs m = record m {
  world = record m.world { sensors = record m.world.sensors { session_specs = specs } };
}

abbrev pub set_locked : Bool → Daemon → Daemon
set_locked b m = record m { world = record m.world { locked = b } }

-- `session_selector`
unfoldable pub session_selector : Exec (Selection World) (Unit {0})
session_selector x = (return tt, record x { chosen = x.chosen ++ x.world.sensors.session_specs })

module _ (update : Exec Daemon (Unit {0})) where
  -- `session_specs.remove` raises if the element is not there.
  unfoldable pub discard : Spec → Exec Daemon (Unit {0})
  discard s m =
      if contains (specs_of m) s
      then (return tt, set_specs (remove (specs_of m) s) m)
      else throw (exception "KeyError") m

  -- The handler `except:` of `attach`, which raises the exception again.
  unfoldable pub undo_attach : Spec → Error → Exec Daemon (Unit {0})
  unfolding discard
  undo_attach s e = do discard s; update; throw e

  unfoldable pub attach : Spec → Exec Daemon (Unit {0})
  unfolding undo_attach
  attach s m =
      if contains (specs_of m) s
      then throw (user_error "Already attached to this session") m
      else try_except update (undo_attach s) (set_specs (specs_of m ++ s ∷ []) m)

  unfoldable pub detach : Spec → Exec Daemon (Unit {0})
  detach s m =
      if contains (specs_of m) s
      then update (set_specs (remove (specs_of m) s) m)
      else throw (user_error "Already not attached to this session") m

  -- `lock` of __init__.py.
  unfoldable pub lock : Exec Daemon (Unit {0})
  lock = modify (set_locked true) >> update

  abbrev notify_waiting : World → World
  notify_waiting w = record w { notified = w.notified ++ w.waiting; waiting = [] }

  -- `unlock` of __init__.py: the processes that wait for the unlock are told of it.
  unfoldable pub unlock : Exec Daemon (Unit {0})
  unfolding invalidate_sessions
  unlock = do
    modify (set_locked false)
    on_world (sensing invalidate_sessions)
    modify (λ m. record m { world = notify_waiting m.world })
    update

-- The selectors of a launcher (`PerSessionModuleLauncher`): its module, once per running session
-- of its type, with the session's spec as the first parameter.
unfoldable pub per_session :
    (session_type per_session_name : String) (args : Values) → List Spec → List Spec
per_session session_type name args [] = []
per_session session_type name args (r ∷ rs) =
    let rest = per_session session_type name args rs in
    if str_eq r.name session_type
    then record { name = name; params = cons (tuple (cons (text r.name) r.params)) args } ∷ rest
    else rest
