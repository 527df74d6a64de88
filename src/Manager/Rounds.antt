-- ===== src/Manager/Rounds.antt =====
-- A proof rule for the loop of `start_stop_modules` (module.py).
use blankie.Prelude.{ℕ, zero, suc, List, ◌≡◌, ap, subst₂}
use blankie.Exec.{return, >>=-eq-return}
use blankie.Spec.{Spec}
use blankie.Manager.{Manager, Classes, Progress, idle, again, do_one_module, resume, rounds}

module _ {ℓ κ} {W : Type 0} (classes : Classes W) (P : List Spec → Manager W → Type ℓ)
    (Q : List Spec → Manager W → Type κ) where
  -- A round that performs an operation keeps `P`; the round that finds nothing left gives `Q`.
  pub record Rule : Type (ℓ ⊔ κ) where
    pub keep :
        (errors errors' : List Spec) (m n : Manager W)
        → P errors m
        → do_one_module classes errors m ≡ (return (again errors'), n)
        → P errors' n
    pub finish :
        (errors : List Spec) (m n : Manager W)
        → P errors m
        → do_one_module classes errors m ≡ (return idle, n)
        → Q errors n

  abbrev Later : ℕ → Type (ℓ ⊔ κ)
  Later fuel =
      (errors final : List Spec) (m m' : Manager W)
      → P errors m
      → rounds classes fuel errors m ≡ (return final, m')
      → Q final m'

  round_step :
      Rule
      → (fuel : ℕ) (errors final : List Spec) (m m' n : Manager W) (p : Progress) → P errors m
      → Later fuel
      → do_one_module classes errors m ≡ (return p, n)
      → resume (rounds classes fuel) errors p n ≡ (return final, m')
      → Q final m'
  round_step rule fuel errors final m m' n idle h later e e' =
      subst₂ Q (cc) (ap (λ x. x.1) e') (rule.finish errors m n h e)
  round_step rule fuel errors final m m' n (again es) h later e e' =
      later es final n m' (rule.keep errors es m n h e) e'

  pub rounds_ind : Rule → (fuel : ℕ) → Later fuel
  unfolding rounds
  rounds_ind rule zero errors final m m' h e = cc
  rounds_ind rule (suc fuel) errors final m m' h e =
      let one = do_one_module classes errors m in
      let (p, e', rest) =
        >>=-eq-return (do_one_module classes errors) (resume (rounds classes fuel) errors) m e in
      round_step rule fuel errors final m m' one.1 p h (rounds_ind rule fuel) (λ i. (e' i, one.1))
        rest
