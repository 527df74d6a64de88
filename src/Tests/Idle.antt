-- ===== src/Tests/Idle.antt =====
-- Idle times, the configuration and the timer at concrete states.
use blankie.Prelude.{
  ℕ, ◌*◌, List, [], ◌∷◌, ◌++◌, true, false, ◌≡◌, ◌≢◌, refl, ◌⊎◌, inl, inr, some, none, arith,
}
use blankie.Prelude.Int.{pos, ◌-ℤ◌}
use blankie.Exec.{Exec, return, pure, throw, exception}
use blankie.Spec.{Spec, text, nil, cons, contains, spec_eq}
use blankie.UserConfig.{UserConfig, integer, is_idle_for, run_module, finish}
use blankie.World.{at, plus_inf, x11, wake_lock, Outside, Sensors, World, find, get_session}
use blankie.Idle.{before, get_idle_since, get_sessions, readings, effective, latest}
use blankie.Idle.Inhibit.{get_idle_since-inhibited}
use blankie.Config.{run_config, ask_idle_for, elapsed}
use blankie.Config.Wakeup.{Settled, SameView, NonePassed, Noted, run_config-later}
use blankie.Session.{Daemon, specs_of, attach, detach}
use blankie.Session.Attach.{attach-atomic, detach-attach}
use blankie.Timer.{TimerState, timer_start_next}
use blankie.Timer.Next.{WakesFor, timer_start_next-WakesFor}
use blankie.Tests.Manager.{spec}

abbrev pub display : Spec
display = record { name = "session.x11"; params = cons (text ":0") nil }

abbrev pub lock_1 : Spec
lock_1 = record { name = "session.wake_lock"; params = cons (text "wake-lock-1") nil }

abbrev outside : ℕ → Outside
outside now = record { now = pos now; xprintidle = λ s. some 90000; getmtime = λ s. none }

-- One X11 session, idle since 10 s after the epoch.
abbrev sensors : ℕ → Sensors
sensors now = record {
  outside = outside now;
  sleeping = false;
  session_specs = display ∷ [];
  sessions = (display, x11 true (some (pos 10000))) ∷ [];
}

abbrev held : Sensors
held = record {
  outside = outside 100000;
  sleeping = false;
  session_specs = display ∷ lock_1 ∷ [];
  sessions = (display, x11 true (some (pos 10000))) ∷ (lock_1, wake_lock) ∷ [];
}

unfoldable pub reading : Unit {0}
unfolding get_idle_since get_sessions readings get_session find effective latest before spec_eq
    contains elapsed
reading = tt

held-idle_since : get_idle_since held ≡ (return plus_inf, held)
unfolding reading
held-idle_since = refl

get_idle_since-inhibited_example : get_idle_since held ≡ (return plus_inf, held)
unfolding reading
get_idle_since-inhibited_example =
    get_idle_since-inhibited lock_1 wake_lock held held plus_inf refl refl refl refl held-idle_since

sensors-Settled : (now : ℕ) → Settled (sensors now) (elapsed (pos now) (at (pos 10000)))
unfolding reading
sensors-Settled now = record { t = at (pos 10000); reads = refl; idle = refl }

-- Fade after 60 s, lock after 600 s.
abbrev fade_and_lock : UserConfig
fade_and_lock = is_idle_for (integer (pos 60)) (λ b. elim b [
  | true ↦ run_module (spec "xbacklight") (is_idle_for (integer (pos 600)) (λ _. finish))
  | false ↦ is_idle_for (integer (pos 600)) (λ _. finish)
])

abbrev pub world : ℕ → List Spec → List ℕ → World
world now modules timers = record {
  sensors = sensors now;
  locked = false;
  config = some fade_and_lock;
  modules = modules;
  idle_timers = timers;
  bus_key = none;
  waiting = [];
  notified = [];
  selectors = [];
  pid_file = true;
}

evaluated :
    run_config fade_and_lock (world 100000 [] [])
    ≡ (return tt, world 100000 (spec "xbacklight" ∷ []) (600 ∷ []))
unfolding reading run_config ask_idle_for ◌-ℤ◌
evaluated = refl

none_passed : NonePassed (world 100000 (spec "xbacklight" ∷ []) (600 ∷ [])) (at (pos 190000))
unfolding reading
none_passed n (inl e) = rw e
none_passed n (inr h) = absurd h

-- At 190 s the configuration still asks for the same.
run_config-later_example :
    ((run_config fade_and_lock (world 200000 [] [])).0 ≡ return tt)
    × SameView
        (world 100000 (spec "xbacklight" ∷ []) (600 ∷ []))
        (run_config fade_and_lock (world 200000 [] [])).1
unfolding reading ◌-ℤ◌
run_config-later_example =
    run_config-later (at (pos 90000)) (at (pos 190000)) refl fade_and_lock (world 100000 [] [])
      (world 200000 [] []) (world 100000 (spec "xbacklight" ∷ []) (600 ∷ []))
      (sensors-Settled 100000) (sensors-Settled 200000)
      (record { locked = refl; modules = refl; idle_timers = refl }) evaluated none_passed

abbrev pub daemon : Daemon
daemon = record { running = []; wanted = []; world = world 100000 [] [] }

abbrev timer_state : TimerState
timer_state = record { timer = none; daemon = daemon }

timer_start_next-WakesFor_example :
    let (r, y) = timer_start_next (60 ∷ 600 ∷ []) timer_state in
    (r ≡ return tt)
    × ((y.timer ≡ none)
          × ((m : ℕ)
              → Noted m (60 ∷ 600 ∷ [])
              → before (at (pos 90000)) (at (pos (m * 1000))) ≡ false)
        ⊎ WakesFor (pos 90000) (60 ∷ 600 ∷ []) y.timer)
unfolding reading ◌-ℤ◌
timer_start_next-WakesFor_example =
    timer_start_next-WakesFor (60 ∷ 600 ∷ []) timer_state (pos 90000) (sensors-Settled 100000) refl

-- An update that fails.
abbrev pub failing : Exec Daemon (Unit {0})
failing = throw (exception "CalledProcessError")

attach-atomic_example :
    ((attach failing lock_1 daemon).0 ≡ return tt)
      × (specs_of (attach failing lock_1 daemon).1 ≡ specs_of daemon ++ lock_1 ∷ [])
    ⊎ ((attach failing lock_1 daemon).0 ≢ return tt)
      × (specs_of (attach failing lock_1 daemon).1 ≡ specs_of daemon)
unfolding attach contains spec_eq
attach-atomic_example = attach-atomic failing (λ m. refl) lock_1 daemon refl (λ e. ground arith)

abbrev pub quiet : Exec Daemon (Unit {0})
quiet = pure tt

abbrev pub attached : Daemon
attached = record daemon {
  world = record daemon.world {
    sensors = record daemon.world.sensors { session_specs = display ∷ lock_1 ∷ [] };
  };
}

detach-attach_example : specs_of (detach quiet lock_1 attached).1 ≡ specs_of daemon
unfolding attach contains spec_eq
detach-attach_example = detach-attach quiet (λ m. refl) lock_1 daemon attached refl refl
