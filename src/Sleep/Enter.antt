-- ===== src/Sleep/Enter.antt =====
-- What happens when the system is about to sleep (modules/logind.py, modules/power.py, config.py).
use blankie.Prelude.{ℕ, Bool, true, false, ◌≡◌, ◌≢◌, ◌⊎◌, arith}
use blankie.Exec.{Exec, return}
use blankie.Idle.{get_idle_since, before}
use blankie.Config.{is_idle_for_seconds, idle_time, elapsed}
use blankie.Session.{Daemon}
use blankie.Sleep.{Logind, Power, set_sleeping, handle_enter_sleep, power_start}

-- The lock that delays the system's sleep is released only after `update` has returned, in the state
-- where the system is about to sleep; if `update` raises, the lock is kept.
pub handle_enter_sleep-delays :
    (update : Exec Daemon (Unit {0})) (x : Logind)
    → x.inhibitor ≡ true
    → let (r, y) = handle_enter_sleep update x in
      let (s, m) = update (set_sleeping true x.daemon) in
      (y.daemon ≡ m)
      × ((s ≡ return tt) × (r ≡ return tt) × (y.inhibitor ≡ false)
          ⊎ (s ≢ return tt) × (r ≢ return tt) × (y.inhibitor ≡ true))
unfolding handle_enter_sleep
handle_enter_sleep-delays update x held = ground arith

-- While the system is about to sleep, the configuration is told that it has been idle for any time
-- that it asks about, without a timer being noted; and a power module that is started then executes
-- nothing.
power_start-sleeping :
    (n : ℕ) (runs : Bool) (p : Power)
    → p.world.sensors.sleeping ≡ true
    → (is_idle_for_seconds n p.world ≡ (return true, p.world))
      × (power_start runs p ≡ (return tt, p))
unfolding is_idle_for_seconds idle_time elapsed get_idle_since before power_start
power_start-sleeping n runs p h = (ground arith, ground arith)
