-- ===== src/Manager/Reentrant/Round.antt =====
-- One round of `start_stop_modules` (module.py) whose modules may run nested updates.
use blankie.Prelude.{
  ℕ, zero, suc, ◌≤◌, ◌<◌, List, [], ◌∷◌, ◌++◌, Bool, true, false, ◌≡◌, refl, sym, ◌∙◌, ap, subst,
  arith, Option, none, some,
}
use blankie.Exec.{return, pure, ◌>>◌, Returns, continue-Returns}
use blankie.Spec.{Spec, contains, erase_at}
use blankie.Manager.{
  Manager, Classes, Progress, idle, again, try_wanted, perform, stop_one, start_one, after_step_one,
  do_one_module, resume, rounds, start_stop_modules, last_unwanted, first_missing,
}
use blankie.Manager.Operations.{Operation, do_one_module-Operation}
use blankie.Manager.Reconfigure.{try_wanted-false}
use blankie.Manager.Work.{work}
use blankie.Manager.Contract.{start_stop_modules-same, do_one_module-wanted}
use blankie.Manager.StepOne.{StepOneReturns, try_wanted-Returns}
use blankie.Manager.Reentrant.{Mild}
use blankie.Manager.Reentrant.Progress.{stop_less, start_less, Operation-Progresses}

module _ {W : Type 0} (classes : Classes W) (ws : List Spec) (k : ℕ)
    (stops : (s : Spec) → Mild ws k (classes.stop s))
    (starts : (s : Spec) → Mild ws k (classes.start s)) where
  module _ (step_one : StepOneReturns classes) where
    stop_one_returns :
        (i : ℕ) (r : Spec) (m : Manager W)
        → m.wanted ≡ ws
        → work [] (erase_at m.running i) ws < k
        → (stop_one classes [] i r m).0 ≡ return (again [])
    unfolding stop_one
    stop_one_returns i r m h small =
        let (_, got) = step_one.get_returns r m.world in
        let x = (classes.get r m.world).1 in
        let l = stops r (record m { running = erase_at m.running i; world = x }) h small in
        ground (arith, got, l.returned)

    start_one_returns :
        (w : Spec) (m : Manager W)
        → m.wanted ≡ ws
        → work [] (m.running ++ w ∷ []) ws < k
        → ((start_one classes w >> pure (again [])) m).0 ≡ return (again [])
    unfolding start_one
    start_one_returns w m h small =
        let (_, got) = step_one.get_returns w m.world in
        let x = (classes.get w m.world).1 in
        let l = starts w (record m { running = m.running ++ w ∷ []; world = x }) h small in
        ground (arith, got, l.returned)

    perform-Returns :
        (last : Option (ℕ × Spec)) (first : Option Spec) (m : Manager W)
        → m.wanted ≡ ws
        → work [] m.running ws ≤ k
        → last_unwanted ws [] 0 m.running ≡ last
        → first_missing m.running ws ≡ first
        → Returns (perform classes [] last first m).0
    unfolding perform
    perform-Returns (some (i, r)) first m h small e f =
        (again [], stop_one_returns i r m h (omega (arith, stop_less ws m.running i r e)))
    perform-Returns none (some w) m h small e f =
        (again [], start_one_returns w m h (omega (arith, start_less ws m.running w f)))
    perform-Returns none none m h small e f = (idle, refl)

    after_step_one-Returns :
        (m : Manager W)
        → m.wanted ≡ ws
        → work [] m.running ws ≤ k
        → Returns (after_step_one classes [] false m).0
    unfolding after_step_one
    after_step_one-Returns m h small =
        subst
          (λ v.
            Returns
              (perform classes [] (last_unwanted v [] 0 m.running) (first_missing m.running v) m).0)
          (sym h)
          (perform-Returns (last_unwanted ws [] 0 m.running) (first_missing m.running ws) m h small
            refl refl)

    do_one_module-Returns :
        (m : Manager W)
        → m.wanted ≡ ws
        → work [] m.running ws ≤ k
        → Returns (do_one_module classes [] m).0
    unfolding do_one_module after_step_one
    do_one_module-Returns m h small =
        let (hit, e) = try_wanted-Returns classes step_one m.wanted m in
        let tried = (try_wanted classes m.wanted m).1 in
        continue-Returns (try_wanted classes m.wanted m).0 (after_step_one classes []) tried hit e
          (go hit (λ i. (e i, tried)))
      where
        go :
            (hit : Bool)
            → try_wanted classes m.wanted m ≡ (return hit, (try_wanted classes m.wanted m).1)
            → Returns (after_step_one classes [] hit (try_wanted classes m.wanted m).1).0
        go true e = (again [], refl)
        go false e =
            let (running, wanted) = try_wanted-false classes m.wanted m _ e in
            after_step_one-Returns _ (wanted ∙ h)
              (subst (λ l. work [] l ws ≤ k) (sym running) small)

    -- The rounds from `n` on end without a failure, and leave the wanted list alone.
    abbrev Finishes : ℕ → List Spec → Manager W → Type 0
    Finishes fuel es n =
        ((rounds classes fuel es n).0 ≡ return []) × ((rounds classes fuel es n).1.wanted ≡ ws)

    resume_return :
        (fuel : ℕ) (m : Manager W) (p : Progress)
        → m.wanted ≡ ws
        → work [] m.running ws ≤ k
        → do_one_module classes [] m ≡ (return p, (do_one_module classes [] m).1)
        → ((n : Manager W)
            → n.wanted ≡ ws
            → work [] n.running ws < work [] m.running ws
            → Finishes fuel [] n)
        → let r = resume (rounds classes fuel) [] p (do_one_module classes [] m).1 in
          (r.0 ≡ return []) × (r.1.wanted ≡ ws)
    resume_return fuel m idle h small e later = (refl, do_one_module-wanted classes [] m _ e ∙ h)
    resume_return fuel m (again es) h small e later =
        let n = (do_one_module classes [] m).1 in
        let op =
          subst (λ v. Operation classes [] es m.running v n) h
            (do_one_module-Operation classes [] es m n e) in
        let p = Operation-Progresses classes ws k stops starts es m.running n small op in
        subst (λ l. Finishes fuel l n) (sym p.none_failed) (later n p.wanted p.less)

    rounds_return :
        (fuel : ℕ) (m : Manager W)
        → m.wanted ≡ ws
        → work [] m.running ws ≤ k
        → work [] m.running ws < fuel
        → Finishes fuel [] m
    unfolding rounds
    rounds_return zero m h small enough = absurd (omega arith)
    rounds_return (suc fuel) m h small enough =
        let (p, e) = do_one_module-Returns m h small in
        let n = (do_one_module classes [] m).1 in
        rw e (
          resume_return fuel m p h small (λ i. (e i, n))
            (λ n h' less.
              rounds_return fuel n h' (omega (arith, less, small)) (omega (arith, less, enough))))

    -- Whatever the nested updates do, the rounds return, with the wanted modules running.
    pub start_stop_modules_return :
        (fuel : ℕ) (m : Manager W)
        → m.wanted ≡ ws
        → work [] m.running ws ≤ k
        → work [] m.running ws < fuel
        → let r = start_stop_modules classes fuel m in
          (r.0 ≡ return tt)
          × (r.1.wanted ≡ ws)
          × ((s : Spec) → contains r.1.running s ≡ contains ws s)
    unfolding start_stop_modules
    start_stop_modules_return fuel m h small enough =
        let (e, kept) = rounds_return fuel m h small enough in
        let n = (rounds classes fuel [] m).1 in
        let done : start_stop_modules classes fuel m ≡ (return tt, n) = rw e refl in
        let same = start_stop_modules-same classes fuel m n done in
        (
          ap (λ y. y.0) done,
          ap (λ y. y.1.wanted) done ∙ kept,
          λ s. ap (λ y. contains y.1.running s) done ∙ same s ∙ ap (λ l. contains l s) kept,
        )
