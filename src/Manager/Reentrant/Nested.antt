-- ===== src/Manager/Reentrant/Nested.antt =====
-- `update` (module.py) when starting and stopping modules calls `update` again.
use blankie.Prelude.{
  ℕ, zero, suc, ◌+◌, ◌≤◌, ◌<◌, List, [], ◌∷◌, Bool, true, false, not, ◌&&◌, length, ◌≡◌, refl, sym,
  ◌∙◌, ap, subst, arith,
}
use blankie.Exec.{Exec, return}
use blankie.Spec.{Spec, contains, count, unique, spec_eq_refl}
use blankie.Manager.{Manager, Classes}
use blankie.Manager.Update.{collect, add, run_selectors, apply_selection, synchronize, update}
use blankie.Manager.Measure.{missing, extra, is_extra}
use blankie.Manager.Work.{work, work-le-length}
use blankie.Manager.StepOne.{StepOneReturns}
use blankie.Manager.Reentrant.{Calls, Mild, Calls-Mild}
use blankie.Manager.Reentrant.Round.{start_stop_modules_return}

-- Modules whose `start` and `stop` change the world and call `update` as they like, whose other
-- methods return, and for which the selectors choose `base` and its dependencies are `deps`, found
-- by a recursion no deeper than `depth`, whatever the world.
pub record Reenters {W : Type 0} (program : Exec (Manager W) (Unit {0}) → Classes W)
    (base deps : List Spec) (depth : ℕ) : Type 0 where
  pub step_one : (u : Exec (Manager W) (Unit {0})) → StepOneReturns (program u)
  pub starts : (u : Exec (Manager W) (Unit {0})) (s : Spec) → Calls u ((program u).start s)
  pub stops : (u : Exec (Manager W) (Unit {0})) (s : Spec) → Calls u ((program u).stop s)
  pub selects :
      (u : Exec (Manager W) (Unit {0})) (m : Manager W)
      → m.wanted ≡ []
      → let r = run_selectors ((program u).selectors m.world) m in
        (r.0 ≡ return tt) × (r.1.wanted ≡ base) × (r.1.running ≡ m.running)
  pub collects :
      (u : Exec (Manager W) (Unit {0})) (bound : ℕ) (w : W)
      → depth ≤ bound
      → (collect (add (program u) bound) base w).0 ≡ return deps

count-zero :
    (p : Spec → Bool) (xs : List Spec)
    → ((s : Spec) → contains xs s ≡ true → p s ≡ false)
    → count p xs ≡ zero
unfolding count contains
count-zero p [] h = refl
count-zero p (x ∷ xs) h =
    ground (arith, h x, spec_eq_refl x, count-zero p xs (λ s there. ground (arith, h s, there)))

-- Nothing is left to do when the running modules are the wanted ones.
work-same :
    (running ws : List Spec)
    → ((s : Spec) → contains running s ≡ contains ws s)
    → work [] running ws ≡ zero
unfolding missing extra contains
work-same running ws same = omega (
  arith,
  count-zero (λ s. not (contains running s)) ws (λ s h. ap not (same s ∙ h)),
  count-zero (is_extra ws []) running (λ s h. ap (λ b. not b && true) (sym (same s) ∙ h)),
)

-- The action returned with the modules of `ws` wanted, and the same ones running.
abbrev pub Settles : {W : Type 0} → List Spec → Exec (Manager W) (Unit {0}) → Manager W → Type 0
Settles ws act m =
    ((act m).0 ≡ return tt)
    × ((act m).1.wanted ≡ ws)
    × ((s : Spec) → contains (act m).1.running s ≡ contains ws s)

module _ {W : Type 0} (program : Exec (Manager W) (Unit {0}) → Classes W) (base deps : List Spec)
    (depth : ℕ) (h : Reenters program base deps depth) where
  synchronize-Settles :
      (u : Exec (Manager W) (Unit {0})) (fuel k : ℕ) (m : Manager W)
      → Mild (unique deps) k u
      → depth ≤ fuel
      → work [] m.running (unique deps) ≤ k
      → work [] m.running (unique deps) < fuel
      → Settles (unique deps) (synchronize (program u) fuel) m
  unfolding synchronize apply_selection
  synchronize-Settles u fuel k m mild deep small enough =
      let m0 : Manager W = record m { wanted = [] } in
      let (chose, chosen, kept) = h.selects u m0 refl in
      let m1 = (run_selectors ((program u).selectors m.world) m0).1 in
      let collected = h.collects u fuel m1.world deep in
      let x = (collect (add (program u) fuel) base m1.world).1 in
      let m2 : Manager W = record m1 { wanted = unique deps; world = x } in
      let fits = subst (λ l. work [] l (unique deps) ≤ k) (sym kept) small in
      let fits' = subst (λ l. work [] l (unique deps) < fuel) (sym kept) enough in
      let r =
        start_stop_modules_return (program u) (unique deps) k
          (λ s. Calls-Mild (unique deps) k u ((program u).stop s) mild (h.stops u s))
          (λ s. Calls-Mild (unique deps) k u ((program u).start s) mild (h.starts u s))
          (h.step_one u) fuel m2 refl fits fits' in
      rw chose (rw chosen (rw collected r))

  update-Settles_within :
      (fuel : ℕ) (m : Manager W)
      → work [] m.running (unique deps) + depth + 2 ≤ fuel
      → Settles (unique deps) (update program fuel) m
  unfolding update
  update-Settles_within zero m enough = absurd (omega arith)
  update-Settles_within (suc fuel) m enough =
      synchronize-Settles (update program fuel) fuel (work [] m.running (unique deps)) m
        (λ n kept less.
          let (returned, wanted, same) =
            update-Settles_within fuel n (omega (arith, enough, less)) in
          record {
            returned = returned;
            wanted = wanted;
            work_le = omega (arith, work-same _ _ same);
          })
        (omega (arith, enough)) (omega arith) (omega (arith, enough))

  -- Modules may call `update` from their `start` and `stop`: if they do nothing else to the
  -- manager's lists and raise nothing, if the selectors and the dependencies do not depend on what
  -- happened, and if the rest returns, then `update` returns, however the nested updates are
  -- interleaved, with a recursion no deeper than the modules wanted and running and the depth of
  -- the dependencies. Then exactly the selected modules and their dependencies are running.
  pub update-Settles :
      (fuel : ℕ) (m : Manager W)
      → length (unique deps) + length m.running + depth + 2 ≤ fuel
      → Settles (unique deps) (update program fuel) m
  update-Settles fuel m enough =
      update-Settles_within fuel m (omega (arith, work-le-length m.running (unique deps), enough))
