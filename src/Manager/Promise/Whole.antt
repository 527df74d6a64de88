-- ===== src/Manager/Promise/Whole.antt =====
-- `start_stop_modules` and `update` (module.py) keep what `update` promises.
use blankie.Prelude.{ℕ, zero, suc, List, [], ◌≡◌, sym, ◌∙◌}
use blankie.Exec.{Exec, return, modify, ◌>>◌, >>=-eq-return}
use blankie.Exec.Triples.{Triple}
use blankie.Spec.{Spec, unique}
use blankie.Manager.{Manager, Classes, idle, again, on_world, rounds, report, start_stop_modules}
use blankie.Manager.Update.{collect, add, run_selectors, apply_selection, synchronize, update}
use blankie.Manager.Operations.{
  Operation, reconfigured, stopped, failed, started, do_one_module-Operation,
}
use blankie.Manager.Rounds.{Rule, rounds_ind}
use blankie.Manager.Contract.{report-eq-return, start_stop_modules-same}
use blankie.Manager.Promise.{Promised, Honours, Keeps, Chooses, Delivered}
use blankie.Manager.Promise.Round.{snoc-ne-nil, do_one_module-Sound}

module _ {W : Type 0} (I : W → Type 0) (C : List Spec → Type 0) (classes : Classes W)
    (k : Keeps I C classes) where
  Operation-none_failed :
      (errors errors' running wanted : List Spec) (n : Manager W)
      → Operation classes errors errors' running wanted n
      → errors' ≡ []
      → errors ≡ []
  Operation-none_failed errors es rs ws n (reconfigured i r w p e running wanted) h = sym e ∙ h
  Operation-none_failed errors es rs ws n (stopped i r x hit e step) h = sym e ∙ h
  Operation-none_failed errors es rs ws n (failed i r x err j hit e step same) h =
      absurd (snoc-ne-nil errors r (sym e ∙ h))
  Operation-none_failed errors es rs ws n (started w x j no_stop hit e step same) h = sym e ∙ h

  start_stop_modules-Promised : (fuel : ℕ) → Honours I C (start_stop_modules classes fuel)
  unfolding start_stop_modules
  start_stop_modules-Promised fuel m n a p e =
      let (final, q, e') = >>=-eq-return (rounds classes fuel []) report m e in
      let (none_failed, same) = report-eq-return classes final _ n e' in
      rounds_ind classes Kept Kept rule fuel [] final m n (λ _. p) (λ i. (q i, same i)) none_failed
    where
      Kept : List Spec → Manager W → Type 0
      Kept es m = es ≡ [] → (Promised I C) m

      rule : Rule classes Kept Kept
      rule = record {
        keep = λ es es' m n p e h.
            do_one_module-Sound I C classes k es m n (again es')
              (p (
                Operation-none_failed es es' m.running m.wanted n
                  (do_one_module-Operation classes es es' m n e) h))
              e h;
        finish = λ es m n p e h. do_one_module-Sound I C classes k es m n idle (p h) e;
      }

  apply_selection-Delivered :
      (bound : ℕ) (m n : Manager W)
      → ((deps : List Spec) (w : W)
          → collect (add classes bound) m.wanted m.world ≡ (return deps, w)
          → I w × C (unique deps))
      → apply_selection classes bound m ≡ (return tt, n)
      → Delivered I C n
  unfolding apply_selection
  apply_selection-Delivered bound m n chosen e =
      let depend = on_world (collect (add classes bound) m.wanted) in
      let x = (depend m).1 in
      let (deps, q, e') =
        >>=-eq-return depend
          (λ ds. modify (λ j. record j { wanted = unique ds }) >> start_stop_modules classes bound)
          m e in
      let p = chosen deps x.world (λ i. (q i, x.world)) in
      (
        start_stop_modules-Promised bound (record x { wanted = unique deps }) n tt p e',
        start_stop_modules-same classes bound (record x { wanted = unique deps }) n e',
      )

  pub synchronize-Delivered :
      Chooses I C classes
      → (bound : ℕ) → Triple (λ m. I m.world) (synchronize classes bound) (λ _. Delivered I C)
  unfolding synchronize
  synchronize-Delivered chooses bound m n a i e =
      let m0 : Manager W = record m { wanted = [] } in
      let selectors = classes.selectors m.world in
      let (_, q, e') =
        >>=-eq-return (run_selectors selectors) (λ _. apply_selection classes bound) m0 e in
      let m1 = (run_selectors selectors m0).1 in
      apply_selection-Delivered bound m1 n (λ deps w. chooses m m1 bound deps w i (λ j. (q j, m1)))
        e'

module _ {W : Type 0} (I : W → Type 0) (C : List Spec → Type 0) where
  abbrev pub Delivers : Exec (Manager W) (Unit {0}) → Type 0
  Delivers u = Triple (λ m. I m.world) u (λ _. Promised I C)

  -- If what the modules keep of the world and of the wanted list is kept whenever `update` keeps it,
  -- `update` leaves it so when it returns, and the wanted modules are then the running ones.
  pub update-Delivered :
      (program : Exec (Manager W) (Unit {0}) → Classes W)
      → ((u : Exec (Manager W) (Unit {0})) → Delivers u → Keeps I C (program u))
      → ((u : Exec (Manager W) (Unit {0})) → Delivers u → Chooses I C (program u))
      → (fuel : ℕ) → Triple (λ m. I m.world) (update program fuel) (λ _. Delivered I C)
  unfolding update
  update-Delivered program keeps chooses zero = λ m n a i e. cc
  update-Delivered program keeps chooses (suc fuel) =
      let nested : Delivers (update program fuel) =
        λ m n a i e. (update-Delivered program keeps chooses fuel m n a i e).0 in
      synchronize-Delivered I C (program (update program fuel)) (keeps (update program fuel) nested)
        (chooses (update program fuel) nested) fuel
