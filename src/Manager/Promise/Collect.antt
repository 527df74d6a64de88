-- ===== src/Manager/Promise/Collect.antt =====
-- Reading dependencies (`add` in `update` of module.py) minds the world as `get` does.
use blankie.Prelude.{ℕ, zero, suc, List, [], ◌∷◌, ◌++◌}
use blankie.Exec.{Exec}
use blankie.Exec.Triples.{Triple, Triple-pure, Triple->>=}
use blankie.Spec.{Spec}
use blankie.Manager.{Classes}
use blankie.Manager.Update.{collect, add}

module _ {W : Type 0} (I : W → Type 0) where
  pub collect-Minds :
      (visit : Spec → Exec W (List Spec))
      → ((s : Spec) → Triple I (visit s) (λ _. I))
      → (ss : List Spec) → Triple I (collect visit ss) (λ _. I)
  unfolding collect
  collect-Minds visit minds [] = Triple-pure I _ [] (λ _ p. p)
  collect-Minds visit minds (s ∷ ss) =
      Triple->>= I (λ _. I) _ _ _ (minds s)
        (λ here.
          Triple->>= I (λ _. I) _ _ _ (collect-Minds visit minds ss)
            (λ rest. Triple-pure I _ (here ++ rest) (λ _ p. p)))

  pub add-Minds :
      (classes : Classes W)
      → ((s : Spec) → Triple I (classes.get s) (λ _. I))
      → (bound : ℕ) (s : Spec) → Triple I (add classes bound s) (λ _. I)
  unfolding add
  add-Minds classes gets zero s = λ m n a i e. cc
  add-Minds classes gets (suc bound) s =
      Triple->>= I (λ _. I) _ _ _ (gets s)
        (λ _.
          Triple->>= I (λ _. I) _ _ _
            (collect-Minds (add classes bound) (add-Minds classes gets bound)
              (classes.dependencies s))
            (λ before. Triple-pure I _ (before ++ s ∷ []) (λ _ p. p)))
