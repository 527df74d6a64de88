-- ===== src/Idle/Keeps.antt =====
-- Reading the sessions (`get_idle_since` of __init__.py, `get_sessions` of session.py) leaves the set of
-- sessions alone.
use blankie.Prelude.{List, [], ◌∷◌, true, false, ◌≡◌, arith, none, some}
use blankie.Exec.{>>=_keeps}
use blankie.Spec.{Spec}
use blankie.World.{Sensors, Session, x11, tty, remote, wake_lock, get_session, put_session}
use blankie.Idle.{get_sessions, readings, session_idle_since, sessions_idle_since, get_idle_since}

module _ (specs : List Spec) where
  abbrev pub Same : Sensors → Type 0
  Same v = v.session_specs ≡ specs

  pub get_session-Same : (s : Spec) (v : Sensors) → Same v → Same (get_session s v).1
  unfolding get_session
  get_session-Same s v h = ground arith

  session_idle_since-Same :
      (s : Spec) (x : Session) (v : Sensors) → Same v → Same (session_idle_since s x v).1
  unfolding session_idle_since put_session
  session_idle_since-Same s (x11 false t) v h = h
  session_idle_since-Same s (x11 true (some t)) v h = h
  session_idle_since-Same s (x11 true none) v h = ground arith
  session_idle_since-Same s tty v h = ground arith
  session_idle_since-Same s (remote t) v h = h
  session_idle_since-Same s wake_lock v h = h

  pub get_sessions-Same : (l : List Spec) (v : Sensors) → Same v → Same (get_sessions l v).1
  unfolding get_sessions
  get_sessions-Same [] v h = h
  get_sessions-Same (s ∷ l) v h =
      >>=_keeps Same (get_session s) _ v (get_session-Same s v h) (λ x _.
        let v' = (get_session s v).1 in
        >>=_keeps Same (get_sessions l) _ v' (get_sessions-Same l v' (get_session-Same s v h))
          (λ rest _. get_sessions-Same l v' (get_session-Same s v h)))

  readings-Same : (l : List (Spec × Session)) (v : Sensors) → Same v → Same (readings l v).1
  unfolding readings
  readings-Same [] v h = h
  readings-Same ((s, y) ∷ l) v h =
      let v1 = (get_session s v).1 in
      let h1 = get_session-Same s v h in
      >>=_keeps Same (get_session s) _ v h1 (λ x _.
        let v2 = (session_idle_since s x v1).1 in
        let h2 = session_idle_since-Same s x v1 h1 in
        >>=_keeps Same (session_idle_since s x) _ v1 h2 (λ t _.
          >>=_keeps Same (readings l) _ v2 (readings-Same l v2 h2)
            (λ rest _. readings-Same l v2 h2)))

  sessions_idle_since-Same : (v : Sensors) → Same v → Same (sessions_idle_since v).1
  unfolding sessions_idle_since
  sessions_idle_since-Same v h =
      let v' = (get_sessions v.session_specs v).1 in
      let h' = get_sessions-Same v.session_specs v h in
      >>=_keeps Same (get_sessions v.session_specs) _ v h' (λ l _.
        >>=_keeps Same (readings l) _ v' (readings-Same l v' h') (λ ts _. readings-Same l v' h'))

  pub get_idle_since-Same : (v : Sensors) → Same v → Same (get_idle_since v).1
  unfolding get_idle_since
  get_idle_since-Same v h = ground (arith, sessions_idle_since-Same v h)
