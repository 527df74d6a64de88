-- ===== src/Events/Helper.antt =====
-- From the X server's notification, through the helper's line (xss_helper.py) and the reader, to the
-- session's idle state (modules/xss.py).
use blankie.Prelude.{
  ℕ, zero, suc, String, List, [], ◌∷◌, Bool, false, not, ◌≡◌, refl, sym, ap, some, none, Option,
  get_elem?, ◌==◌, true, ◌⊎◌, inl, inr, ◌∙◌,
}
use blankie.Exec.{Exec, return, return-eq}
use blankie.Spec.{Spec, str_eq, contains}
use blankie.World.{Moment, plus_inf, Sensors, x11, put_session}
use blankie.Idle.{get_idle_since}
use blankie.Idle.Inhibit.{get_idle_since-inhibited}
use blankie.Events.Activity.{find-put_same}
use blankie.Session.{Daemon}
use blankie.XssHelper.{join_words, words_of}
use blankie.Events.{xss_handle_event}

-- The daemon after the X server has told whether the session is idle.
abbrev pub note_idle : Spec → Bool → Daemon → Daemon
note_idle s idle m = record m {
  world = record m.world { sensors = put_session s (x11 idle none) m.world.sensors };
}

abbrev is_off : Option String → Bool
is_off none = false
is_off (some a) = str_eq a "off"

off-state :
    (state : ℕ) (a : String)
    → get_elem? ("off" ∷ "on" ∷ "cycle" ∷ []) state ≡ some a
    → not (str_eq a "off") ≡ not (state == 0)
off-state zero a h = ap (λ o. not (is_off o)) (sym h)
off-state (suc zero) a h = ap (λ o. not (is_off o)) (sym h)
off-state (suc (suc zero)) a h = ap (λ o. not (is_off o)) (sym h)
off-state (suc (suc (suc n))) a h = cc

-- The parts of a line.
record Parts (first : Option String) (words : List String) : Type 0 where
  state : String
  kind : String
  forced : String
  is_first : first ≡ some state
  are_words : words ≡ "notify" ∷ state ∷ kind ∷ forced ∷ []

parts :
    (a b c : Option String) (words : List String) → join_words a b c ≡ some words → Parts a words
parts (some a) (some b) (some c) words h = record {
  state = a;
  kind = b;
  forced = c;
  is_first = refl;
  are_words = cc;
}
parts (some a) (some b) none words h = cc
parts (some a) none c words h = cc
parts none b c words h = cc

xss_handle_event-words_of :
    (update : Exec Daemon (Unit {0})) (s : Spec) (state kind forced : ℕ) (words : List String)
    (m : Daemon)
    → words_of state kind forced ≡ some words
    → xss_handle_event update s words m ≡ update (note_idle s (not (state == 0)) m)
unfolding words_of xss_handle_event
xss_handle_event-words_of update s state kind forced words m h =
    let p = parts _ _ _ words h in
    rw p.are_words (ap (λ idle. update (note_idle s idle m)) (off-state state p.state p.is_first))

active-inf :
    (s : Spec) (idle : Bool) (m : Daemon) (t : Moment) (v : Sensors)
    → m.world.sensors.sleeping ≡ false
    → contains m.world.sensors.session_specs s ≡ true
    → get_idle_since (note_idle s idle m).world.sensors ≡ (return t, v)
    → (idle ≡ true) ⊎ (t ≡ plus_inf)
unfolding put_session
active-inf s true m t v awake listed h = inl refl
active-inf s false m t v awake listed h = inr (
    return-eq (
      sym h
      ∙ get_idle_since-inhibited s (x11 false none) _ v t awake listed
          (find-put_same m.world.sensors.sessions s (x11 false none)) refl h))

-- The line that the helper prints for an event of an attached session is understood, unless the
-- system is going to sleep: the session becomes idle exactly if the event's state is not 0 ("off"),
-- its reading is forgotten, and `update` is called in that state, where the system is not idle if
-- the event's state is 0: `get_idle_since`, if it returns, returns infinity.
pub xss_handle_event-helper :
    (update : Exec Daemon (Unit {0})) (s : Spec) (state kind forced : ℕ) (words : List String)
    (m : Daemon) (t : Moment) (v : Sensors)
    → words_of state kind forced ≡ some words
    → m.world.sensors.sleeping ≡ false
    → contains m.world.sensors.session_specs s ≡ true
    → get_idle_since (note_idle s (not (state == 0)) m).world.sensors ≡ (return t, v)
    → (xss_handle_event update s words m ≡ update (note_idle s (not (state == 0)) m))
      × ((not (state == 0) ≡ true) ⊎ (t ≡ plus_inf))
xss_handle_event-helper update s state kind forced words m t v printed awake listed h = (
  xss_handle_event-words_of update s state kind forced words m printed,
  active-inf s (not (state == 0)) m t v awake listed h,
)
