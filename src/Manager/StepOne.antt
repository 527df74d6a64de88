-- ===== src/Manager/StepOne.antt =====
-- Step 1 of a round (module.py) returns if `get` and `reconfigure` do.
use blankie.Prelude.{ℕ, suc, List, [], ◌∷◌, Bool, true, false, not, ◌&&◌, refl, if◌then◌else◌}
use blankie.Exec.{Exec, pure, modify, ◌>>=◌, ◌>>◌, Returns, >>=-Returns}
use blankie.Spec.{Spec, contains}
use blankie.Manager.{Manager, Classes, on_world, same_name, adopt, try_running, try_wanted}

pub record StepOneReturns {W : Type 0} (classes : Classes W) : Type 0 where
  pub get_returns : (s : Spec) (w : W) → Returns (classes.get s w).0
  pub reconfigure_returns : (r s : Spec) (w : W) → Returns (classes.reconfigure r s w).0

choice-Returns :
    {S A : Type 0} (c : Bool) (f g : Exec S A) (s : S)
    → Returns (f s).0
    → Returns (g s).0
    → Returns ((if c then f else g) s).0
choice-Returns true f g s h k = h
choice-Returns false f g s h k = k

module _ {W : Type 0} (classes : Classes W) (h : StepOneReturns classes) where
  try_running-Returns :
      (w : Spec) (i : ℕ) (rs : List Spec) (m : Manager W) → Returns (try_running classes w i rs m).0
  unfolding try_running
  try_running-Returns w i [] m = (false, refl)
  try_running-Returns w i (r ∷ rs) m =
      let rest = try_running classes w (suc i) rs in
      let answer : Bool → Exec (Manager W) Bool =
        λ done. if done then modify (adopt classes i r w) >> pure true else rest in
      choice-Returns (same_name w r && not (contains m.wanted r)) _ rest m
        (>>=-Returns (on_world (classes.get r)) (λ _. on_world (classes.reconfigure r w) >>= answer)
          m (h.get_returns r m.world)
          (λ _.
            >>=-Returns (on_world (classes.reconfigure r w)) answer _ (h.reconfigure_returns r w _)
              (λ done.
                choice-Returns done _ rest _ (true, refl) (try_running-Returns w (suc i) rs _))))
        (try_running-Returns w (suc i) rs m)

  pub try_wanted-Returns : (ws : List Spec) (m : Manager W) → Returns (try_wanted classes ws m).0
  unfolding try_wanted
  try_wanted-Returns [] m = (false, refl)
  try_wanted-Returns (w ∷ ws) m =
      let rest = try_wanted classes ws in
      let attempt = try_running classes w 0 m.running in
      choice-Returns (contains m.running w) rest _ m (try_wanted-Returns ws m) (
        >>=-Returns attempt (λ hit. if hit then pure true else rest) m
          (try_running-Returns w 0 m.running m)
          (λ hit. choice-Returns hit (pure true) rest _ (true, refl) (try_wanted-Returns ws _)))
