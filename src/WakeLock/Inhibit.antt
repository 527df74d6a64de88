-- ===== src/WakeLock/Inhibit.antt =====
-- A wake lock keeps the system from being idle (modules/server.py, modules/session/wake_lock.py).
use blankie.Prelude.{some, false, ◌≡◌, ◌≢◌, refl, sym, ◌∙◌, ap}
use blankie.Exec.{Exec, return, return-eq, out_of_fuel}
use blankie.World.{Moment, plus_inf, wake_lock, Sensors, find}
use blankie.Idle.{get_idle_since}
use blankie.Idle.Inhibit.{get_idle_since-inhibited}
use blankie.Session.{Daemon, specs_of}
use blankie.Session.Attach.{KeepsSpecs}
use blankie.WakeLock.{WakeLock, attaching, holding, copies, Reaches}
use blankie.WakeLock.Held.{is_held, wake_lock-held}

-- If updates end and leave the set of attached sessions alone: whatever has happened since a
-- client asked for its wake lock, while it holds the lock, and the session object of the lock
-- exists, `get_idle_since`, if it returns, returns infinity, unless the system is going to sleep.
pub wake_lock-inhibits :
    (update : Exec Daemon (Unit {0}))
    → KeepsSpecs update
    → ((m : Daemon) → (update m).0 ≢ out_of_fuel)
    → (c d : WakeLock) (t : Moment) (v : Sensors) → c.phase ≡ attaching
    → copies c.spec (specs_of c.daemon) ≡ 0
    → Reaches update c d
    → d.phase ≡ holding
    → find d.daemon.world.sensors.sessions d.spec ≡ some wake_lock
    → d.daemon.world.sensors.sleeping ≡ false
    → get_idle_since d.daemon.world.sensors ≡ (return t, v)
    → t ≡ plus_inf
wake_lock-inhibits update keeps ends c d t v e z r held there awake h =
    let listed = wake_lock-held update keeps ends c d e z r ∙ ap is_held held in
    return-eq (
      sym h
      ∙ get_idle_since-inhibited d.spec wake_lock d.daemon.world.sensors v t awake listed there refl
          h)
