-- ===== src/Manager/Promise.antt =====
-- What `update` (module.py) promises of the wanted list and of the world, however its modules call
-- it again when they are started or stopped.
mod Round
pub mod Whole
pub mod Collect
use blankie.Prelude.{
  ℕ, zero, suc, List, [], ◌∷◌, ◌++◌, Bool, true, false, not, ◌&&◌, ◌≡◌, ◌≢◌, refl, sym, ap, subst,
  subst₂, Option, none, some, ◌∙◌, if◌then◌else◌,
}
use blankie.Exec.{
  Exec, return, raise, pure, gets, modify, try_except, handle, ◌>>=◌, ◌>>◌, >>=-eq-return, Outcome,
}
use blankie.Exec.Triples.{Triple, Triple-pure, Triple-if, Triple-modify, Triple->>=, Triple-attempt}
use blankie.Spec.{Spec, contains, unique, insert_at, erase_at, remove}
use blankie.Manager.{
  Manager, Classes, Progress, idle, again, on_world, same_name, move_last, adopt, try_running,
  try_wanted, perform, stop_one, start_one, stop_or_start, after_step_one, do_one_module, rounds,
  report, start_stop_modules,
}
use blankie.Manager.Update.{collect, add, run_selectors, apply_selection, synchronize, update}
use blankie.Manager.Operations.{
  Operation, reconfigured, stopped, failed, started, do_one_module-Operation,
}
use blankie.Manager.Rounds.{Rule, rounds_ind}
use blankie.Manager.Contract.{report-eq-return, start_stop_modules-same}

module _ {W : Type 0} (I : W → Type 0) (C : List Spec → Type 0) where
  -- The world is as it must be, and so is the list of the wanted modules.
  abbrev pub Promised : Manager W → Type 0
  Promised m = I m.world × C m.wanted

  -- So they are, and the wanted modules are the running ones.
  abbrev pub Delivered : Manager W → Type 0
  Delivered m = Promised m × ((s : Spec) → contains m.running s ≡ contains m.wanted s)

  -- The state in which a module is stopped: it is not wanted.
  abbrev pub Unwanted : Spec → Manager W → Type 0
  Unwanted s m = I m.world × (C m.wanted × (contains m.wanted s ≡ false))

  -- A method that keeps what `update` promises if `update` does.
  abbrev pub Honours : Exec (Manager W) (Unit {0}) → Type 0
  Honours act = Triple Promised act (λ _. Promised)

  -- Methods on the world.
  abbrev pub Minds {ℓ} : {A : Type ℓ} → Exec W A → Type ℓ
  Minds act = Triple I act (λ _. I)

  pub Triple-on_world {ℓ} :
      {A : Type ℓ} (act : Exec W A) → Minds act → Triple Promised (on_world act) (λ _. Promised)
  Triple-on_world act h m n a (i, c) e =
      let r = act m.world in
      let kept = h m.world r.1 a i (λ j. ((ap (λ y. y.0) e) j, r.1)) in
      subst Promised (ap (λ y. y.1) e) (kept, c)

  -- What the module manager needs of the classes, whose methods may call `update`.
  pub record Keeps (classes : Classes W) : Type 0 where
    pub gets_world : (s : Spec) → Minds (classes.get s)
    pub reconfigures : (r s : Spec) → Minds (classes.reconfigure r s)
    pub rekeys : (r s : Spec) (w : W) → I w → I (classes.rekey r s w)
    pub starts : (s : Spec) → Honours (classes.start s)
    pub stops : (s : Spec) → Triple (Unwanted s) (classes.stop s) (λ _. Promised)

  -- The selectors and the dependencies, where they return, lead to such a list.
  abbrev pub Chooses : Classes W → Type 0
  Chooses classes =
      (m n : Manager W) (bound : ℕ) (deps : List Spec) (w : W)
      → I m.world
      → run_selectors (classes.selectors m.world) (record m { wanted = [] }) ≡ (return tt, n)
      → collect (add classes bound) n.wanted n.world ≡ (return deps, w)
      → I w × C (unique deps)

  -- After an operation by which no module failed to stop.
  abbrev pub Sound : Progress → Manager W → Type 0
  Sound idle m = Promised m
  Sound (again es) m = es ≡ [] → Promised m
