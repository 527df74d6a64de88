-- ===== src/Manager/Returns.antt =====
-- `update` returns, with the dependencies that the modules have (module.py, modules/logind.py,
-- modules/dbus.py, modules/remote_sender.py).
use blankie.Prelude.{
  ℕ, suc, ◌+◌, ◌≤◌, ◌<◌, List, [], ◌∷◌, length, ◌≡◌, refl, sym, ap, subst, ◌∙◌, arith,
}
use blankie.Exec.{Exec, return, Returns, >>=_keeps}
use blankie.Spec.{Spec, unique}
use blankie.Manager.{Manager, Classes, Selection}
use blankie.Manager.Update.{collect, add, select, run_selectors, apply_selection, synchronize}
use blankie.Manager.Work.{work, work-le-length}
use blankie.Manager.Reentrant.{Mild}
use blankie.Manager.Reentrant.Round.{start_stop_modules_return}
use blankie.Manager.Reentrant.Nested.{Settles}
use blankie.Loading.Dependencies.{get_dependencies, closure, collect-closure}

-- The action returned, and the manager's lists are as before.
pub record Spares {W : Type 0} (act : Exec (Manager W) (Unit {0})) (m : Manager W) : Type 0 where
  pub returned : (act m).0 ≡ return tt
  pub running : (act m).1.running ≡ m.running
  pub wanted : (act m).1.wanted ≡ m.wanted

-- Modules whose methods return and leave the manager's lists alone, with the dependencies of the
-- program's modules.
pub record IsPlain {W : Type 0} (classes : Classes W) : Type 0 where
  pub gets : (s : Spec) (w : W) → (classes.get s w).0 ≡ return tt
  pub reconfigures : (r s : Spec) (w : W) → Returns (classes.reconfigure r s w).0
  pub starts : (s : Spec) (m : Manager W) → Spares (classes.start s) m
  pub stops : (s : Spec) (m : Manager W) → Spares (classes.stop s) m
  pub depends : (s : Spec) → classes.dependencies s ≡ get_dependencies s

module _ {W : Type 0} where
  run_selectors-running :
      (l : List (List Spec → Exec (Selection W) (Unit {0}))) (m : Manager W)
      → (run_selectors l m).1.running ≡ m.running
  unfolding run_selectors
  run_selectors-running [] m = refl
  run_selectors-running (f ∷ l) m =
      >>=_keeps (λ n. n.running ≡ m.running) (select f) (λ _. run_selectors l) m refl
        (λ _ _. run_selectors-running l (select f m).1)

  Spares-Mild :
      (ws : List Spec) (k : ℕ) (act : Exec (Manager W) (Unit {0}))
      → ((m : Manager W) → Spares act m)
      → Mild ws k act
  Spares-Mild ws k act spares m h small =
      let s = spares m in
      record {
        returned = s.returned;
        wanted = s.wanted ∙ h;
        work_le = subst (λ l. work [] l ws ≤ work [] m.running ws) (sym s.running) (omega arith);
      }

  module _ (classes : Classes W) (plain : IsPlain classes) where
    -- With modules whose methods return and leave the manager's lists alone, and with the
    -- dependencies of the program's modules: if the selectors return, `update` returns, and exactly
    -- the modules that they chose and the dependencies of these are running then. Enough as a bound
    -- is a number above those of the modules wanted and running, which is at least 3.
    pub synchronize_returns :
        (bound : ℕ) (m k : Manager W)
        → run_selectors (classes.selectors m.world) (record m { wanted = [] }) ≡ (return tt, k)
        → length (unique (closure k.wanted)) + length m.running < suc (suc (suc bound))
        → Settles (unique (closure k.wanted)) (synchronize classes (suc (suc (suc bound)))) m
    unfolding synchronize apply_selection
    synchronize_returns bound m k chosen enough =
        let fuel = suc (suc (suc bound)) in
        let ws = unique (closure k.wanted) in
        let m0 : Manager W = record m { wanted = [] } in
        let kept : k.running ≡ m.running =
          ap (λ r. r.1.running) (sym chosen)
          ∙ run_selectors-running (classes.selectors m.world) m0 in
        let x = (collect (add classes fuel) k.wanted k.world).1 in
        let m2 : Manager W = record k { wanted = ws; world = x } in
        let small = work-le-length k.running ws in
        let fits : work [] k.running ws < fuel =
          omega (arith, small, ap (λ (l : List Spec). length l) kept) in
        let r =
          start_stop_modules_return classes ws fuel
            (λ s. Spares-Mild ws fuel (classes.stop s) (plain.stops s))
            (λ s. Spares-Mild ws fuel (classes.start s) (plain.starts s))
            (record {
              get_returns = λ s w. (tt, plain.gets s w);
              reconfigure_returns = plain.reconfigures;
            })
            fuel m2 refl (omega (arith, fits)) fits in
        rw chosen (rw (collect-closure classes plain.gets plain.depends bound k.wanted k.world) r)
