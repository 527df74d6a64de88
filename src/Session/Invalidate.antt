-- ===== src/Session/Invalidate.antt =====
-- Invalidating the sessions' readings (session.py, __init__.py) leaves the set of sessions alone.
use blankie.Prelude.{List, [], ◌∷◌}
use blankie.Exec.{>>=_keeps}
use blankie.Spec.{Spec}
use blankie.World.{Session, Sensors, get_session, put_session}
use blankie.Idle.{get_sessions}
use blankie.Idle.Keeps.{Same, get_session-Same, get_sessions-Same}
use blankie.Session.{invalidated, invalidate_all, invalidate_sessions}

module _ (specs : List Spec) where
  invalidate_all-Same :
      (l : List (Spec × Session)) (v : Sensors) → Same specs v → Same specs (invalidate_all l v).1
  unfolding invalidate_all put_session
  invalidate_all-Same [] v h = h
  invalidate_all-Same ((s, x) ∷ l) v h =
      >>=_keeps (Same specs) (get_session s) _ v (get_session-Same specs s v h) (λ x e.
        invalidate_all-Same l (put_session s (invalidated x) (get_session s v).1)
          (get_session-Same specs s v h))

  pub invalidate_sessions-Same : (v : Sensors) → Same specs v → Same specs (invalidate_sessions v).1
  unfolding invalidate_sessions
  invalidate_sessions-Same v h =
      >>=_keeps (Same specs) (get_sessions v.session_specs) invalidate_all v
        (get_sessions-Same specs v.session_specs v h)
        (λ l e. invalidate_all-Same l _ (get_sessions-Same specs v.session_specs v h))
