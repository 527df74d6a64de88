-- ===== src/Events.antt =====
-- The events that tell of the user's activity: modules/xss.py for X11 sessions, modules/tty_idle.py
-- for TTY sessions.
pub mod Activity
pub mod Readers
pub mod Helper
use blankie.Prelude.{
  ℕ, String, List, [], ◌∷◌, Bool, true, false, not, if◌then◌else◌, ◌==◌, Option, none, some,
}
use blankie.Exec.{Exec, exception, return, pure, throw, gets, modify, ◌>>=◌, ◌>>◌}
use blankie.Spec.{Spec, str_eq}
use blankie.World.{Session, x11, put_session, get_session, Sensors, sensing}
use blankie.Manager.{on_world}
use blankie.Session.{Daemon, invalidated}

-- `self.session.idle = …; self.session.invalidate()`
abbrev pub note_state : Spec → String → Daemon → Daemon
note_state s state m = record m {
  world = record m.world {
    sensors = put_session s (x11 (not (str_eq state "off")) none) m.world.sensors;
  };
}

module _ (update : Exec Daemon (Unit {0})) where
  -- `xss_handle_event` for the words of a line, in the module of the session `s`.
  unfoldable pub xss_handle_event : Spec → List String → Exec Daemon (Unit {0})
  xss_handle_event s [] = throw (exception "IndexError")
  xss_handle_event s (word ∷ state ∷ kind ∷ forced ∷ _) =
      if str_eq word "notify" then (λ m. update (note_state s state m)) else pure tt
  xss_handle_event s (word ∷ _) =
      if str_eq word "notify" then throw (exception "ValueError") else pure tt

  -- `tty_idle_handle_event`; the module's thread and the one that the event is from, by number.
  unfoldable pub tty_idle_handle_event : Spec → Option ℕ → ℕ → Exec Daemon (Unit {0})
  unfolding invalidated
  tty_idle_handle_event s none thread = pure tt
  tty_idle_handle_event s (some own) thread =
      let refresh : Exec Daemon (Unit {0}) =
        on_world (sensing (get_session s >>= λ x. modify (put_session s (invalidated x))))
        >> update in
      if thread == own then refresh else pure tt
