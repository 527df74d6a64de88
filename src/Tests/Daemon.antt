-- ===== src/Tests/Daemon.antt =====
-- The event loop, the shutdown, the server and wake locks at concrete states.
use blankie.Prelude.{ℕ, zero, suc, List, [], ◌∷◌, ◌++◌, true, false, ◌≡◌, ◌⊎◌, refl, arith}
use blankie.Exec.{Exec, Error, exception, return, pure, throw}
use blankie.Spec.{Spec, spec_eq, contains, unique, count, erase_at}
use blankie.World.{wake_lock, plus_inf, find, get_session, World, core, shutting_down}
use blankie.EventLoop.{EventLoop, call, call_all, exits, turn, Happens, start, called, took}
use blankie.EventLoop.Fifo.{OnlyCalls, happens-fifo, happens-exits}
use blankie.Manager.{
  Classes, start_stop_modules, rounds, do_one_module, try_wanted, stop_one, start_one,
  first_missing, last_unwanted,
}
use blankie.Manager.Update.{collect, add, run_selectors, synchronize}
use blankie.Session.{Daemon, specs_of, attach}
use blankie.Selectors.{selectors_of, run_selector, key_lt, plain, sort_keys, insert_key, register}
use blankie.Lifecycle.{shutdown}
use blankie.Server.{Request, bytes, error_text, attach_to, server_run_command}
use blankie.Server.Replies.{attach-replies}
use blankie.WakeLock.{
  WakeLock, attaching, holding, wake_attach, Reaches, here, then_step, attach_runs, acknowledges,
  others,
}
use blankie.WakeLock.Inhibit.{wake_lock-inhibits}
use blankie.Idle.{
  before, get_idle_since, get_sessions, readings, effective, latest, sessions_idle_since,
}
use blankie.WakeLock.Held.{wake_lock-held}
use blankie.Tests.Idle.{daemon, lock_1, quiet, failing, attached}

-- A task `suc n` calls the task `n`, and the task 0 fails.
abbrev countdown : ℕ → Exec (EventLoop ℕ ℕ) (Unit {0})
countdown zero = throw (exception "ValueError")
countdown (suc n) = λ x. (return tt, record x { queue = x.queue ++ n ∷ [] })

abbrev counting : ℕ → EventLoop ℕ ℕ → List ℕ
counting zero x = []
counting (suc n) x = n ∷ []

countdown-OnlyCalls : OnlyCalls countdown counting
unfolding call
countdown-OnlyCalls = record { appends = appends; stays_stopping = stays }
  where
    appends :
        (t : ℕ) (x : EventLoop ℕ ℕ) → (countdown t x).1.queue ≡ (call_all (counting t x) x).queue
    appends zero x = refl
    appends (suc n) x = refl

    stays : (t : ℕ) (x : EventLoop ℕ ℕ) → x.stopping ≡ true → (countdown t x).1.stopping ≡ true
    stays zero x h = h
    stays (suc n) x h = h

abbrev loop : List ℕ → EventLoop ℕ ℕ
loop queue = record { queue = queue; stopping = true; world = 0 }

-- Another thread calls the task 0.
counted : Happens countdown counting (loop (1 ∷ [])) (0 ∷ 0 ∷ []) (1 ∷ 0 ∷ 0 ∷ []) (loop [])
unfolding turn call
counted =
    took {y = loop (0 ∷ [])} {put = 0 ∷ 0 ∷ []} {done = 1 ∷ 0 ∷ []} {t = 0} {ts = []}
      (took {y = loop (0 ∷ 0 ∷ [])} {put = 0 ∷ 0 ∷ []} {done = 1 ∷ []} {t = 0} {ts = 0 ∷ []}
        (took {y = loop (1 ∷ 0 ∷ [])} {put = 0 ∷ []} {done = []} {t = 1} {ts = 0 ∷ []}
          (called {y = loop (1 ∷ [])} {put = []} {done = []} start 0) refl)
        refl)
      refl

happens-fifo_example : ◌≡◌ {A = List ℕ} (1 ∷ 0 ∷ 0 ∷ []) ((1 ∷ []) ++ (0 ∷ 0 ∷ []))
happens-fifo_example =
    happens-fifo countdown counting countdown-OnlyCalls (loop (1 ∷ [])) (loop []) (0 ∷ 0 ∷ [])
      (1 ∷ 0 ∷ 0 ∷ []) counted

happens-exits_example : ◌≡◌ {A = List ℕ} (1 ∷ 0 ∷ 0 ∷ []) ((1 ∷ []) ++ (0 ∷ 0 ∷ []))
unfolding exits
happens-exits_example =
    happens-exits countdown counting countdown-OnlyCalls (loop (1 ∷ [])) (loop []) (0 ∷ 0 ∷ [])
      (1 ∷ 0 ∷ 0 ∷ []) counted refl

abbrev main_loop : EventLoop ℕ Daemon
main_loop = record { queue = 7 ∷ []; stopping = false; world = daemon }

-- Modules that do nothing, with the daemon's selectors.
abbrev idle_classes : Classes World
idle_classes = record {
  get = λ s. pure tt;
  start = λ s. pure tt;
  stop = λ s. pure tt;
  reconfigure = λ r s. pure false;
  rekey = λ r s w. w;
  dependencies = λ s. [];
  selectors = selectors_of false;
}

abbrev running_daemon : Daemon
running_daemon = record {
  running = plain "xss" ∷ plain "server" ∷ [];
  wanted = [];
  world = record daemon.world { selectors = ("10-core", core) ∷ [] };
}

abbrev stopped_daemon : Daemon
stopped_daemon = record {
  running = [];
  wanted = [];
  world = record daemon.world {
    selectors = ("10-core", core) ∷ ("95-shutdown", shutting_down) ∷ [];
    pid_file = false;
  };
}

shut_down : shutdown (synchronize idle_classes 4) running_daemon ≡ (return tt, stopped_daemon)
unfolding shutdown synchronize selectors_of start_stop_modules rounds do_one_module try_wanted
    stop_one start_one contains erase_at spec_eq collect add unique last_unwanted first_missing
    run_selectors run_selector key_lt sort_keys insert_key register
shut_down = refl

abbrev request : Request ℕ
request = record { loop = main_loop; written = []; gone = false; done = false }

abbrev no_command : Spec → Exec Daemon (Unit {0})
no_command s = throw (exception "NotImplementedError")

attach-replies_example :
    let y = (server_run_command failing (pure tt) no_command (attach_to lock_1) request).1 in
    (y.done ≡ true)
    × ((y.written ≡ bytes "ok" ∷ []) × (specs_of y.loop.world ≡ specs_of daemon ++ lock_1 ∷ [])
        ⊎ ((e : Error) × (y.written ≡ error_text e ∷ [])
            × (specs_of y.loop.world ≡ specs_of daemon)))
unfolding attach contains spec_eq
attach-replies_example =
    attach-replies failing (pure tt) no_command (λ m. refl) lock_1 request refl refl
      (λ e. ground arith)

abbrev requested : WakeLock
requested = record {
  spec = lock_1;
  phase = attaching;
  stopping = false;
  loop_exited = false;
  daemon = daemon;
}

abbrev held : WakeLock
held = record {
  spec = lock_1;
  phase = holding;
  stopping = false;
  loop_exited = false;
  daemon = attached;
}

held_lock : Reaches quiet requested held
unfolding wake_attach attach contains spec_eq
held_lock = then_step (then_step here (attach_runs refl refl)) (acknowledges refl)

wake_lock-held_example : contains (specs_of attached) lock_1 ≡ true
unfolding count spec_eq
wake_lock-held_example =
    wake_lock-held quiet (λ m. refl) (λ m h. cc) requested held refl refl held_lock

-- The lock's session object has been made.
abbrev holding_daemon : Daemon
holding_daemon = record attached {
  world = record attached.world {
    sensors = record attached.world.sensors {
      sessions = (lock_1, wake_lock) ∷ attached.world.sensors.sessions;
    };
  };
}

abbrev held_now : WakeLock
held_now = record held { daemon = holding_daemon }

held_now_lock : Reaches quiet requested held_now
held_now_lock = then_step held_lock (others holding_daemon refl)

inhibited :
    get_idle_since holding_daemon.world.sensors ≡ (return plus_inf, holding_daemon.world.sensors)
unfolding get_idle_since sessions_idle_since get_sessions readings effective latest before
    get_session find spec_eq
inhibited = refl

wake_lock-inhibits_example : plus_inf ≡ plus_inf
unfolding count spec_eq find
wake_lock-inhibits_example =
    wake_lock-inhibits quiet (λ m. refl) (λ m h. cc) requested held_now plus_inf
      holding_daemon.world.sensors refl refl held_now_lock refl refl refl inhibited
