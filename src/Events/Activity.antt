-- ===== src/Events/Activity.antt =====
-- A report of activity makes the system not idle (modules/xss.py, __init__.py).
use blankie.Prelude.{String, List, [], ◌∷◌, true, false, ◌≡◌, refl, none, some, sym, ◌∙◌}
use blankie.Exec.{Exec, return, return-eq}
use blankie.Spec.{Spec, contains, spec_eq_refl}
use blankie.World.{Moment, plus_inf, Session, x11, Sensors, find, put, put_session}
use blankie.Idle.{get_idle_since}
use blankie.Idle.Inhibit.{find-put, get_idle_since-inhibited}
use blankie.Session.{Daemon}
use blankie.Events.{note_state, xss_handle_event}

pub find-put_same :
    (l : List (Spec × Session)) (s : Spec) (y : Session) → find (put l s y) s ≡ some y
find-put_same l s y = find-put l s s y ∙ rw (spec_eq_refl s)

-- When the X server reports of an attached session that its screen saver is off, `update` is called,
-- in a state where the system is not idle, unless it is going to sleep: `get_idle_since`, if it
-- returns, returns infinity.
xss_handle_event-off :
    (update : Exec Daemon (Unit {0})) (s : Spec) (kind forced : String) (m : Daemon) (t : Moment)
    (v : Sensors)
    → m.world.sensors.sleeping ≡ false
    → contains m.world.sensors.session_specs s ≡ true
    → get_idle_since (note_state s "off" m).world.sensors ≡ (return t, v)
    → (xss_handle_event update s ("notify" ∷ "off" ∷ kind ∷ forced ∷ []) m
        ≡ update (note_state s "off" m))
      × (t ≡ plus_inf)
unfolding xss_handle_event put_session
xss_handle_event-off update s kind forced m t v awake listed h =
    let w = (note_state s "off" m).world.sensors in
    let same =
      get_idle_since-inhibited s (x11 false none) w v t awake listed
        (find-put_same m.world.sensors.sessions s (x11 false none)) refl h in
    (refl, return-eq (sym h ∙ same))
