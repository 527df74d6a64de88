-- ===== src/Idle.antt =====
-- `get_idle_since` of __init__.py and of the session classes: since when the system is idle.
pub mod Keeps
pub mod Order
pub mod Inhibit
use blankie.Prelude.{ℕ, List, [], ◌∷◌, ◌++◌, Bool, true, false, Option, none, some, if◌then◌else◌}
use blankie.Prelude.Int.{ℤ, pos, ◌-ℤ◌, ltb_ℤ}
use blankie.Exec.{Exec, return, exception, pure, throw, gets, modify, ◌>>=◌, ◌>>◌}
use blankie.Spec.{Spec}
use blankie.World.{
  Moment, minus_inf, at, plus_inf, Reading, nan, since, Session, x11, tty, remote, wake_lock,
  Sensors, get_session, put_session,
}

-- `a < b` on floats that are not NaN.
unfoldable pub before : Moment → Moment → Bool
before minus_inf minus_inf = false
before minus_inf b = true
before (at x) minus_inf = false
before (at x) (at y) = ltb_ℤ x y
before (at x) plus_inf = true
before plus_inf b = false

abbrev query_idle : Option ℕ → Spec → ℤ → Exec Sensors Reading
query_idle none s now = throw (exception "CalledProcessError")
query_idle (some ms) s now =
    let t = now -ℤ pos ms in modify (put_session s (x11 true (some t))) >> pure (since (at t))

abbrev query_mtime : Option ℤ → Exec Sensors Reading
query_mtime none = throw (exception "FileNotFoundError")
query_mtime (some t) = pure (since (at t))

-- The method `get_idle_since` of the object `x` of the spec `s`.
unfoldable pub session_idle_since : Spec → Session → Exec Sensors Reading
session_idle_since s (x11 false t) w = (return (since plus_inf), w)
session_idle_since s (x11 true (some t)) w = (return (since (at t)), w)
session_idle_since s (x11 true none) w = query_idle (w.outside.xprintidle s) s w.outside.now w
session_idle_since s tty w = query_mtime (w.outside.getmtime s) w
session_idle_since s (remote t) w = (return t, w)
session_idle_since s wake_lock w = (return (since plus_inf), w)

-- `get_sessions`
unfoldable pub get_sessions : List Spec → Exec Sensors (List (Spec × Session))
get_sessions [] = pure []
get_sessions (s ∷ ss) = do x ← get_session s; rest ← get_sessions ss; pure ((s, x) ∷ rest)

-- `[session.get_idle_since() for session in sessions]`. The objects are shared, so each is read
-- when its turn comes.
unfoldable pub readings : List (Spec × Session) → Exec Sensors (List Reading)
unfolding session_idle_since
readings [] = pure []
readings ((s, _) ∷ l) = do
  x ← get_session s
  t ← session_idle_since s x
  rest ← readings l
  pure (t ∷ rest)

-- `filter(lambda t: not math.isnan(t), …)`
unfoldable pub effective : List Reading → List Moment
effective [] = []
effective (nan ∷ l) = effective l
effective (since t ∷ l) = t ∷ effective l

-- `max` of `best` and the list: the first greatest.
unfoldable pub max_from : Moment → List Moment → Moment
max_from best [] = best
max_from best (t ∷ l) = max_from (if before best t then t else best) l

unfoldable pub latest : List Moment → Moment
unfolding max_from
latest [] = plus_inf
latest (t ∷ l) = max_from t l

unfoldable pub sessions_idle_since : Exec Sensors Moment
sessions_idle_since = do
  specs ← gets (λ w. w.session_specs)
  sessions ← get_sessions specs
  times ← readings sessions
  pure (latest (effective times))

unfoldable pub get_idle_since : Exec Sensors Moment
unfolding sessions_idle_since
get_idle_since w = if w.sleeping then (return minus_inf, w) else sessions_idle_since w
