-- ===== src/Manager/Update.antt =====
-- `update` of module.py, and the recursion through it: modules call it from `start` and `stop`.
use blankie.Prelude.{ℕ, zero, suc, List, [], ◌∷◌, ◌++◌}
use blankie.Exec.{Exec, pure, diverge, gets, modify, ◌>>=◌, ◌>>◌}
use blankie.Spec.{Spec, unique}
use blankie.Manager.{Manager, Selection, Classes, on_world, start_stop_modules}

-- The local function `add` appends a module's dependencies, with theirs, and then the module.
-- `collect` is the loop over a list of specs; the result is what they append.
module _ {W : Type 0} where
  unfoldable pub collect : (Spec → Exec W (List Spec)) → List Spec → Exec W (List Spec)
  collect visit [] = pure []
  collect visit (s ∷ ss) = do here ← visit s; rest ← collect visit ss; pure (here ++ rest)

  unfoldable pub add : Classes W → ℕ → Spec → Exec W (List Spec)
  unfolding collect
  add classes zero s = diverge
  add classes (suc depth) s = do
    classes.get s
    before ← collect (add classes depth) (classes.dependencies s)
    pure (before ++ s ∷ [])

  -- `selector(wanted_modules)`
  abbrev pub select : (List Spec → Exec (Selection W) (Unit {0})) → Exec (Manager W) (Unit {0})
  select selector m =
      let (r, x) = selector m.running (record { chosen = m.wanted; world = m.world }) in
      (r, record m { wanted = x.chosen; world = x.world })

  unfoldable pub run_selectors :
      List (List Spec → Exec (Selection W) (Unit {0})) → Exec (Manager W) (Unit {0})
  run_selectors [] = pure tt
  run_selectors (selector ∷ rest) = select selector >> run_selectors rest

  -- `update` from "Add dependencies" on.
  unfoldable pub apply_selection : Classes W → ℕ → Exec (Manager W) (Unit {0})
  unfolding add
  apply_selection classes bound = do
    chosen ← gets (λ m. m.wanted)
    with_dependencies ← on_world (collect (add classes bound) chosen)
    modify (λ m. record m { wanted = unique with_dependencies })
    start_stop_modules classes bound

  -- The body of `update`; `bound` limits the depth of the dependencies and the rounds.
  unfoldable pub synchronize : Classes W → ℕ → Exec (Manager W) (Unit {0})
  unfolding apply_selection
  synchronize classes bound = do
    modify (λ m. record m { wanted = [] })
    selectors ← gets (λ m. classes.selectors m.world)
    run_selectors selectors
    apply_selection classes bound

  -- The classes' methods call `update`, so they are given as a function of it. The fuel bounds the
  -- depth of nested updates, and the rounds of each.
  unfoldable pub update :
      (Exec (Manager W) (Unit {0}) → Classes W) → ℕ → Exec (Manager W) (Unit {0})
  unfolding synchronize
  update program zero = diverge
  update program (suc fuel) = synchronize (program (update program fuel)) fuel
