-- ===== src/Idle/Inhibit.antt =====
-- Sessions that keep the system from being idle: wake locks, and X11 sessions that X does not report
-- as idle (`get_idle_since` of __init__.py).
use blankie.Prelude.{
  ℕ, List, [], ◌∷◌, Bool, true, false, ◌≡◌, refl, ◌⊎◌, inl, inr, Option, none, some, arith, map,
  subst, ap, sym, ◌∙◌, Bool-cases, if◌then◌else◌,
}
use blankie.Prelude.Int.{pos, ◌-ℤ◌}
use blankie.Exec.{return, >>=-eq-return, return-eq}
use blankie.Spec.{Spec, contains, spec_eq, spec_eq_iff, spec_eq_refl}
use blankie.World.{
  Moment, plus_inf, Reading, nan, since, Session, x11, tty, remote, wake_lock, Sensors, find, put,
  put_session, get_session,
}
use blankie.Idle.{
  before, session_idle_since, get_sessions, readings, effective, latest, sessions_idle_since,
  get_idle_since,
}
use blankie.Idle.Order.{Among, latest-max}

-- The object reports that its session cannot become idle.
abbrev pub inhibits : Session → Bool
inhibits (x11 false t) = true
inhibits wake_lock = true
inhibits (remote (since plus_inf)) = true
inhibits _ = false

abbrev inhibiting : Option Session → Bool
inhibiting none = false
inhibiting (some x) = inhibits x

pub find-put :
    (l : List (Spec × Session)) (s t : Spec) (y : Session)
    → find (put l s y) t ≡ (if spec_eq s t then some y else find l t)
unfolding find put
find-put [] s t y = refl
find-put ((u, x) ∷ l) s t y =
    ground (arith, spec_eq_iff u s, spec_eq_iff u t, spec_eq_iff s t, find-put l s t y)

module _ (s : Spec) where
  get_session-keeps :
      (t : Spec) (w w' : Sensors) (x : Session)
      → get_session t w ≡ (return x, w')
      → inhibiting (find w.sessions s) ≡ true
      → (inhibiting (find w'.sessions s) ≡ true) × (find w'.sessions t ≡ some x)
  unfolding get_session
  get_session-keeps t w w' x h inh =
      ground (
        arith,
        find-put w.sessions t s x,
        find-put w.sessions t t x,
        spec_eq_iff t s,
        spec_eq_refl t,
      )

  session_idle_since-keeps :
      (t : Spec) (x : Session) (w w' : Sensors) (r : Reading)
      → session_idle_since t x w ≡ (return r, w')
      → find w.sessions t ≡ some x
      → inhibiting (find w.sessions s) ≡ true
      → inhibiting (find w'.sessions s) ≡ true
  unfolding session_idle_since put_session
  session_idle_since-keeps t (x11 true none) w w' r h e inh = go (w.outside.xprintidle t) refl
    where
      go : (o : Option ℕ) → w.outside.xprintidle t ≡ o → inhibiting (find w'.sessions s) ≡ true
      go none q = ground arith
      go (some ms) q = ground (
        arith,
        find-put w.sessions t s (x11 true (some (w.outside.now -ℤ pos ms))),
        spec_eq_iff t s,
      )
  session_idle_since-keeps t (x11 true (some u)) w w' r h e inh = ground arith
  session_idle_since-keeps t (x11 false u) w w' r h e inh = ground arith
  session_idle_since-keeps t tty w w' r h e inh = ground arith
  session_idle_since-keeps t (remote u) w w' r h e inh = ground arith
  session_idle_since-keeps t wake_lock w w' r h e inh = ground arith

  session_idle_since-inf :
      (x : Session) (w w' : Sensors) (r : Reading)
      → session_idle_since s x w ≡ (return r, w')
      → inhibits x ≡ true
      → r ≡ since plus_inf
  unfolding session_idle_since
  session_idle_since-inf x w w' r h inh = ground arith

  effective-inf :
      (r : Reading) (rest : List Reading)
      → (r ≡ since plus_inf) ⊎ Among plus_inf (effective rest)
      → Among plus_inf (effective (r ∷ rest))
  unfolding effective
  effective-inf nan rest (inl e) = absurd (cc e)
  effective-inf nan rest (inr m) = m
  effective-inf (since u) rest (inl e) = inl (cc)
  effective-inf (since u) rest (inr m) = inr m

  -- Reading a list of sessions with `s` in it gives an infinity.
  readings-inf :
      (l : List (Spec × Session)) (w w' : Sensors) (ts : List Reading)
      → readings l w ≡ (return ts, w')
      → contains (map (λ p. p.0) l) s ≡ true
      → inhibiting (find w.sessions s) ≡ true
      → Among plus_inf (effective ts)
  unfolding readings contains
  readings-inf [] w w' ts h m inh = cc
  readings-inf ((t, y) ∷ l) w w' ts h m inh =
      let (x, e, h1) = >>=-eq-return (get_session t) _ w h in
      let w1 = (get_session t w).1 in
      let (inh1, has) = get_session-keeps t w w1 x (λ i. (e i, w1)) inh in
      let (r, e2, h2) = >>=-eq-return (session_idle_since t x) _ w1 h1 in
      let w2 = (session_idle_since t x w1).1 in
      let inh2 = session_idle_since-keeps t x w1 w2 r (λ i. (e2 i, w2)) has inh1 in
      let (rest, e3, h3) = >>=-eq-return (readings l) _ w2 h2 in
      subst (λ z. Among plus_inf (effective z)) (return-eq h3)
        (effective-inf r rest (elim (Bool-cases (spec_eq t s)) [
          | inl same ↦ inl (ground (arith, session_idle_since-inf x w1 w2 r, spec_eq_iff t s))
          | inr other ↦
              inr (readings-inf l w2 _ rest (λ i. (e3 i, (readings l w2).1)) (ground arith) inh2)
        ]))

  get_sessions-keeps :
      (ss : List Spec) (w w' : Sensors) (l : List (Spec × Session))
      → get_sessions ss w ≡ (return l, w')
      → inhibiting (find w.sessions s) ≡ true
      → (inhibiting (find w'.sessions s) ≡ true) × (map (λ p. p.0) l ≡ ss)
  unfolding get_sessions
  get_sessions-keeps [] w w' l h inh = ground arith
  get_sessions-keeps (t ∷ ss) w w' l h inh =
      let (x, e, h1) = >>=-eq-return (get_session t) _ w h in
      let w1 = (get_session t w).1 in
      let (inh1, _) = get_session-keeps t w w1 x (λ i. (e i, w1)) inh in
      let (rest, e2, h2) = >>=-eq-return (get_sessions ss) _ w1 h1 in
      let (inh2, keys) =
        get_sessions-keeps ss w1 _ rest (λ i. (e2 i, (get_sessions ss w1).1)) inh1 in
      (
        subst (λ z. inhibiting (find z.sessions s) ≡ true) (ap (λ z. z.1) h2) inh2,
        ap (map (λ p. p.0)) (sym (return-eq h2)) ∙ ap (λ z. t ∷ z) keys,
      )

latest-inf : (l : List Moment) → Among plus_inf l → latest l ≡ plus_inf
latest-inf [] m = absurd m
latest-inf (t ∷ l) m = before-inf _ ((latest-max t l).1 plus_inf m)
  where
    before-inf : (u : Moment) → before u plus_inf ≡ false → u ≡ plus_inf
    before-inf u h = unfold before in ground arith

get_idle_since-awake : (w : Sensors) → w.sleeping ≡ false → get_idle_since w ≡ sessions_idle_since w
unfolding get_idle_since
get_idle_since-awake w awake = ground arith

-- While a session that is attached reports that it cannot become idle, as a wake lock does, the
-- system is not idle: `get_idle_since`, if it returns, returns infinity, unless the system is going
-- to sleep.
pub get_idle_since-inhibited :
    (s : Spec) (x : Session) (w w' : Sensors) (t : Moment)
    → w.sleeping ≡ false
    → contains w.session_specs s ≡ true
    → find w.sessions s ≡ some x
    → inhibits x ≡ true
    → get_idle_since w ≡ (return t, w')
    → get_idle_since w ≡ (return plus_inf, w')
unfolding sessions_idle_since
get_idle_since-inhibited s x w w' t awake attached e inh h =
    let (l, e1, h1) =
      >>=-eq-return (get_sessions w.session_specs) _ w (sym (get_idle_since-awake w awake) ∙ h) in
    let w1 = (get_sessions w.session_specs w).1 in
    let (inh1, keys) = get_sessions-keeps s w.session_specs w w1 l (λ i. (e1 i, w1)) (rw e inh) in
    let (ts, e2, h2) = >>=-eq-return (readings l) _ w1 h1 in
    let inf = readings-inf s l w1 _ ts (λ i. (e2 i, (readings l w1).1)) (rw keys attached) inh1 in
    subst (λ u. get_idle_since w ≡ (return u, w'))
      (sym (return-eq h2) ∙ latest-inf (effective ts) inf) h
