-- ===== src/Sleep.antt =====
-- modules/logind.py, which holds an inhibitor lock so that the system is locked before it sleeps, and
-- modules/power.py, which sends it to sleep.
pub mod Enter
use blankie.Prelude.{String, List, [], ◌∷◌, ◌++◌, Bool, true, false, not, if◌then◌else◌}
use blankie.Exec.{Exec, exception, return, pure, throw, gets, modify, ◌>>=◌, ◌>>◌}
use blankie.World.{Moment, minus_inf, at, plus_inf, World, sensing}
use blankie.Idle.{get_idle_since}
use blankie.Session.{Daemon}

-- The tasks that the signal has the main thread perform.
pub data SleepTask : Type 0 where
  enter_sleep : SleepTask
  exit_sleep : SleepTask

-- Whether `inhibitor_lock` is held, the tasks put in the queue, and the rest of the daemon.
pub record Logind : Type 0 where
  pub inhibitor : Bool
  pub called : List SleepTask
  pub daemon : Daemon

-- `inhibit` and `uninhibit`; `granted` is whether logind gives the lock.
unfoldable pub inhibit : (granted : Bool) → Exec Logind (Unit {0})
inhibit granted x =
    if x.inhibitor
    then throw (exception "AssertionError") x
    else if granted
    then (return tt, record x { inhibitor = true })
    else throw (exception "DBusException") x

unfoldable pub uninhibit : Exec Logind (Unit {0})
uninhibit x =
    if x.inhibitor
    then (return tt, record x { inhibitor = false })
    else throw (exception "AssertionError") x

abbrev call_task : SleepTask → Logind → Logind
call_task t x = record x { called = x.called ++ t ∷ [] }

unfoldable pub handle_sleep_signal : (granted start : Bool) → Exec Logind (Unit {0})
unfolding inhibit
handle_sleep_signal granted true = modify (call_task enter_sleep)
handle_sleep_signal granted false = do
  held ← gets (λ x. x.inhibitor)
  if held then pure tt else inhibit granted
  modify (call_task exit_sleep)

abbrev pub set_sleeping : Bool → Daemon → Daemon
set_sleeping b m = record m {
  world = record m.world { sensors = record m.world.sensors { sleeping = b } };
}

module _ (update : Exec Daemon (Unit {0})) where
  abbrev update_daemon : Exec Logind (Unit {0})
  update_daemon x = let (r, m) = update x.daemon in (r, record x { daemon = m })

  unfoldable pub handle_enter_sleep : Exec Logind (Unit {0})
  unfolding uninhibit
  handle_enter_sleep = do
    modify (λ x. record x { daemon = set_sleeping true x.daemon })
    update_daemon
    held ← gets (λ x. x.inhibitor)
    if held then uninhibit else pure tt

  unfoldable pub handle_exit_sleep : Exec Logind (Unit {0})
  handle_exit_sleep =
      modify (λ x. record x { daemon = set_sleeping false x.daemon }) >> update_daemon

-- `PowerModule`: its action, and the actions executed.
pub record Power : Type 0 where
  pub power_action : String
  pub executed : List String
  pub world : World

abbrev power_unless : (runs : Bool) → Moment → Exec Power (Unit {0})
power_unless runs minus_inf x = (return tt, x)
power_unless true t x = (return tt, record x { executed = x.executed ++ x.power_action ∷ [] })
power_unless false t x = throw (exception "CalledProcessError") x

abbrev in_power {ℓ} : {A : Type ℓ} → Exec World A → Exec Power A
in_power act x = let (r, w) = act x.world in (r, record x { world = w })

-- `start`; `runs` is whether `systemctl` succeeds.
unfoldable pub power_start : (runs : Bool) → Exec Power (Unit {0})
power_start runs = in_power (sensing get_idle_since) >>= power_unless runs
