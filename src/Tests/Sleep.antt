-- ===== src/Tests/Sleep.antt =====
-- Sleep and activity at concrete states.
use blankie.Prelude.{Bool, [], ◌∷◌, true, false, ◌≡◌, ◌≢◌, ◌⊎◌, refl}
use blankie.Exec.{raise, exception, return}
use blankie.Spec.{contains, spec_eq}
use blankie.World.{plus_inf, find, put, put_session, get_session}
use blankie.Idle.{
  before, get_idle_since, get_sessions, readings, effective, latest, sessions_idle_since,
}
use blankie.Session.{Daemon}
use blankie.Sleep.{Logind, Power, set_sleeping, handle_enter_sleep}
use blankie.Sleep.Enter.{handle_enter_sleep-delays}
use blankie.Events.{xss_handle_event}
use blankie.Events.Helper.{note_idle, xss_handle_event-helper}
use blankie.XssHelper.{words_of, ScreenSaver, Call, sync_property, notify, run}
use blankie.XssHelper.Cleanup.{IsClean, run-IsClean}
use blankie.SystemBus.{Glib, Bus, drain, logind_start, logind_stop}
use blankie.SystemBus.Release.{logind_stop-released}
use blankie.Tests.Idle.{daemon, display, quiet, failing}

abbrev inhibiting : Logind
inhibiting = record { inhibitor = true; called = []; daemon = daemon }

handle_enter_sleep-delays_example :
    let (r, y) = handle_enter_sleep failing inhibiting in
    let (s, m) = failing (set_sleeping true daemon) in
    (y.daemon ≡ m)
    × ((s ≡ return tt) × (r ≡ return tt) × (y.inhibitor ≡ false)
        ⊎ (s ≢ return tt) × (r ≢ return tt) × (y.inhibitor ≡ true))
handle_enter_sleep-delays_example = handle_enter_sleep-delays failing inhibiting refl

abbrev suspend : Power
suspend = record {
  power_action = "suspend";
  executed = [];
  world = (set_sleeping true daemon).world;
}

abbrev active : Daemon
active = note_idle display false daemon

active-idle : get_idle_since active.world.sensors ≡ (return plus_inf, active.world.sensors)
unfolding get_idle_since sessions_idle_since get_sessions readings effective latest before
    get_session find put put_session spec_eq
active-idle = refl

xss_handle_event-helper_example :
    (xss_handle_event quiet display ("notify" ∷ "off" ∷ "internal" ∷ "natural" ∷ []) daemon
      ≡ quiet active)
    × ((false ≡ true) ⊎ (plus_inf ≡ plus_inf))
unfolding contains spec_eq words_of
xss_handle_event-helper_example =
    xss_handle_event-helper quiet display 0 1 0 ("notify" ∷ "off" ∷ "internal" ∷ "natural" ∷ [])
      daemon plus_inf active.world.sensors refl refl refl active-idle

-- The connection fails when the property has been set.
abbrev cut_off : Call → Bool
cut_off sync_property = false
cut_off c = true

abbrev saver : ScreenSaver
saver = record {
  screen = false;
  pixmap = false;
  server_attributes = false;
  server_property = false;
  server_pixmap = false;
  printed = [];
}

run-IsClean_example : IsClean cut_off true (run cut_off true (notify 1 0 0 ∷ []) saver).1
run-IsClean_example =
    run-IsClean cut_off true (notify 1 0 0 ∷ []) saver refl refl refl
      (record { attributes = λ h. refl; property = λ h. refl; pixmap = λ h. refl })

-- The lock was not granted when the module was started.
abbrev half_started : Glib Bus
half_started = record {
  mainloop = true;
  glib_thread = true;
  idle = [];
  state = record {
    connected = true;
    receiver = true;
    logind = record { inhibitor = false; called = []; daemon = daemon };
  };
}

logind_stop-released_example :
    let n = (logind_stop half_started).1 in
    let no_bus = raise (exception "AttributeError") in
    ((drain half_started).state.connected ≡ true)
      × (((logind_stop half_started).0 ≡ return tt)
          × ((n.state.receiver ≡ false)
              × ((n.state.logind.inhibitor ≡ false) × (logind_stop n ≡ (return tt, n)))))
    ⊎ ((drain half_started).state.connected ≡ false)
      × ((logind_start true half_started ≡ (no_bus, drain half_started))
          × (logind_stop half_started ≡ (no_bus, drain half_started)))
logind_stop-released_example = logind_stop-released half_started true
