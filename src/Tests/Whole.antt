-- ===== src/Tests/Whole.antt =====
-- The daemon as a whole at a concrete state: locking, and attaching a session.
use blankie.Prelude.{
  ap, ◌<◌, ◌+◌, length, subst, sym, arith, String, List, [], ◌∷◌, true, false, ◌≡◌, refl, inl, inr,
  some, if◌then◌else◌,
}
use blankie.Exec.{Exec, return, pure, modify}
use blankie.Exec.Triples.{Triple-pure}
use blankie.Spec.{Spec, contains, unique, remove, erase_at, insert_at}
use blankie.UserConfig.{UserConfig, is_locked, run_module, finish}
use blankie.World.{
  World, Selector, core, configuration, session_set, lock_state, shutting_down, new_session, put,
  put_session,
}
use blankie.Manager.{
  Classes, start_stop_modules, rounds, do_one_module, try_wanted, last_unwanted, first_missing,
  start_one, stop_one,
}
use blankie.Manager.Update.{run_selectors, synchronize, update}
use blankie.Session.{Daemon, attach, lock, unlock, specs_of, session_selector, per_session}
use blankie.Selectors.{key_lt, plain, selectors_of, launcher_start, launcher_stop}
use blankie.Selectors.Chosen.{NoneEnds}
use blankie.Selectors.Final.{AllEarly}
use blankie.Config.{idle_time, config_selector, run_config}
use Prim.Native.String.{◌++◌ as ◌<>◌}
use blankie.Program.{Ready}
use blankie.Program.Modules.{Rest, program}
use blankie.Program.Kept.{RestKeeps}
use blankie.Program.Locking.{
  IsLocked, AsksLocked, lock_demand, config_demand, lock-runs, lock-runs_configured,
}
use blankie.Lifecycle.{shutdown, reload}
use blankie.Program.Reloading.{IsConfigured, reload-runs}
use blankie.Program.Shutdown.{IsEnding, shutdown-stops}
use blankie.Program.Attaching.{IsAttached, session_demand, attach-runs}
use blankie.Manager.Returns.{IsPlain, synchronize_returns}
use blankie.Manager.Reentrant.Nested.{Settles}
use blankie.Loading.Dependencies.{get_dependencies, closure}
use blankie.Tests.Idle.{display, lock_1, world, reading}

-- When the daemon is locked, the screen is.
abbrev lock_screen : UserConfig
lock_screen = is_locked (λ b. if b then run_module (plain "i3lock") finish else finish)

-- The modules that do not call `update` do nothing when they are started or stopped.
abbrev quiet_rest : Rest
quiet_rest = record {
  get = λ s. pure tt;
  repr = λ s. "<" <> s.name <> ">";
  opens = λ s. true;
  start = λ s. pure tt;
  stop = λ s. pure tt;
  reconfigure = λ r s. pure false;
  rekey = λ r s w. w;
}

quiet_rest-RestKeeps : (I : World → Type 0) → RestKeeps I quiet_rest
quiet_rest-RestKeeps I = record {
  gets = λ s. Triple-pure I _ tt (λ _ p. p);
  starts = λ s. Triple-pure I _ tt (λ _ p. p);
  stops = λ s. Triple-pure I _ tt (λ _ p. p);
  reconfigures = λ r s. Triple-pure I _ false (λ _ p. p);
  rekeys = λ r s w p. p;
}

abbrev registry : List (String × Selector)
registry =
    ("10-core", core)
    ∷ ("20-config", configuration)
    ∷ ("30-sessions", session_set)
    ∷ ("50-lock", lock_state)
    ∷ []

abbrev home : Daemon
home = record {
  running = [];
  wanted = [];
  world = record (world 100000 [] []) { config = some lock_screen; selectors = registry };
}

evaluating : Unit {0}
unfolding reading get_dependencies program lock update selectors_of launcher_start launcher_stop
    new_session put config_selector run_config unique remove erase_at insert_at run_selectors
    idle_time session_selector start_stop_modules rounds do_one_module try_wanted last_unwanted
    first_missing start_one per_session attach
evaluating = tt

abbrev after : Daemon
after = (lock (update (program quiet_rest false) 12) home).1

locks : lock (update (program quiet_rest false) 12) home ≡ (return tt, after)
unfolding evaluating
locks = refl

all_alive : NoneEnds registry
all_alive = (refl, (refl, (refl, (refl, tt))))

lock-runs_example : (contains after.running (plain "lock") ≡ true) × (after.world.locked ≡ true)
lock-runs_example =
    lock-runs quiet_rest false (quiet_rest-RestKeeps (Ready IsLocked (lock_demand ∷ []))) 12 home
      after (inr (inr (inr (inl (refl, refl))))) all_alive locks

lock-runs_configured_example :
    (contains after.running (plain "i3lock") ≡ true)
    × (contains after.running (plain "lock") ≡ true)
lock-runs_configured_example =
    lock-runs_configured quiet_rest false lock_screen (plain "i3lock") (inl refl)
      (quiet_rest-RestKeeps
        (Ready (AsksLocked lock_screen) (lock_demand ∷ config_demand (plain "i3lock") ∷ [])))
      12 home after refl (inr (inr (inr (inl (refl, refl))))) (inr (inl (refl, refl))) all_alive
      locks

-- A further session: a wake lock.
abbrev attached : Daemon
attached = (attach (update (program quiet_rest false) 12) lock_1 home).1

attaches : attach (update (program quiet_rest false) 12) lock_1 home ≡ (return tt, attached)
unfolding evaluating
attaches = refl

attach-runs_example :
    (contains attached.running lock_1 ≡ true) × (contains (specs_of attached) lock_1 ≡ true)
attach-runs_example =
    attach-runs quiet_rest false lock_1
      (quiet_rest-RestKeeps (Ready (IsAttached lock_1) (session_demand lock_1 ∷ []))) 12 home
      attached (inr (inr (inl (refl, refl)))) all_alive attaches

-- Modules that do nothing, with the dependencies of the program's modules, under systemd.
abbrev idle_house : Classes World
idle_house = record {
  get = λ s. pure tt;
  start = λ s. pure tt;
  stop = λ s. pure tt;
  reconfigure = λ r s. pure false;
  rekey = λ r s w. w;
  dependencies = get_dependencies;
  selectors = selectors_of true;
}

abbrev selected : Daemon
selected = (run_selectors (selectors_of true home.world) home).1

selects : run_selectors (selectors_of true home.world) home ≡ (return tt, selected)
unfolding evaluating
selects = refl

abbrev expected : List Spec
expected =
    plain "server"
    ∷ plain "remote_receiver"
    ∷ plain "xss"
    ∷ plain "tty_idle"
    ∷ plain "glib"
    ∷ plain "dbus"
    ∷ plain "logind"
    ∷ display
    ∷ []

wanted-expected : unique (closure selected.wanted) ≡ expected
unfolding evaluating
wanted-expected = refl

idle_house-IsPlain : IsPlain idle_house
idle_house-IsPlain = record {
  gets = λ s w. refl;
  reconfigures = λ r s w. (false, refl);
  starts = λ s m. record { returned = refl; running = refl; wanted = refl };
  stops = λ s m. record { returned = refl; running = refl; wanted = refl };
  depends = λ s. refl;
}

synchronize_returns_example :
    Settles (unique (closure selected.wanted)) (synchronize idle_house 9) home
synchronize_returns_example =
    synchronize_returns idle_house idle_house-IsPlain 6 home selected selects
      (subst (λ l. length l + 0 < 9) (sym wanted-expected) (omega arith))

-- Shutting down while the screen is locked.
abbrev ended : Daemon
ended = (shutdown (update (program quiet_rest false) 12) after).1

ends_now : shutdown (update (program quiet_rest false) 12) after ≡ (return tt, ended)
unfolding evaluating shutdown stop_one unlock put_session
ends_now = refl

all_before : AllEarly "95-shutdown" shutting_down after.world.selectors
unfolding evaluating shutdown stop_one unlock put_session key_lt
all_before = (
  record { not_after = refl; early = inl refl },
  (
    record { not_after = refl; early = inl refl },
    (
      record { not_after = refl; early = inl refl },
      (
        record { not_after = refl; early = inl refl },
        (
          record { not_after = refl; early = inl refl },
          (
            record { not_after = refl; early = inl refl },
            (record { not_after = refl; early = inl refl }, tt),
          ),
        ),
      ),
    ),
  ),
)

shutdown-stops_example : (ended.running ≡ []) × (ended.world.pid_file ≡ false)
shutdown-stops_example =
    shutdown-stops quiet_rest false (quiet_rest-RestKeeps IsEnding) 12 after ended all_before
      ends_now

-- Another configuration: notifications, whether the daemon is locked or not.
abbrev notifying : UserConfig
notifying = is_locked (λ b. run_module (plain "dunst") finish)

abbrev read_file : Exec World (Unit {0})
read_file = modify (λ w. record w { config = some notifying })

abbrev reloaded : Daemon
reloaded = (reload (update (program quiet_rest false) 12) read_file home).1

reloads : reload (update (program quiet_rest false) 12) read_file home ≡ (return tt, reloaded)
unfolding evaluating reload
reloads = refl

reload-runs_example :
    (contains reloaded.running (plain "dunst") ≡ true) × (reloaded.world.config ≡ some notifying)
reload-runs_example =
    reload-runs quiet_rest false notifying (plain "dunst") (λ b. inl refl)
      (quiet_rest-RestKeeps (Ready (IsConfigured notifying) (config_demand (plain "dunst") ∷ [])))
      read_file
      (record {
        config = λ w v e. sym (ap (λ p. p.1.config) e);
        selectors = λ w v e. sym (ap (λ p. p.1.selectors) e);
      })
      12 home reloaded (inr (inl (refl, refl))) all_alive reloads
