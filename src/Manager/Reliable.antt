-- ===== src/Manager/Reliable.antt =====
-- `start_stop_modules` (module.py) returns, if the modules raise nothing and make no new work.
use blankie.Prelude.{
  ℕ, zero, suc, ◌+◌, ◌<◌, List, [], ◌∷◌, ◌++◌, Bool, true, false, length, ◌≡◌, ◌≢◌, refl, inl, inr,
  arith, Option, none, some, ◌∙◌, ap,
}
use blankie.Exec.{Error, return, raise, >>=_quiet, Outcome-cases}
use blankie.Spec.{Spec, contains}
use blankie.Manager.{
  Manager, Classes, Progress, idle, again, try_running, try_wanted, perform, stop_one, start_one,
  after_step_one, do_one_module, resume, report, rounds, start_stop_modules,
}
use blankie.Manager.Operations.{
  Operation, reconfigured, stopped, failed, started, do_one_module-Operation,
}
use blankie.Manager.Rounds.{Rule, rounds_ind}
use blankie.Manager.Termination.{IsTame, start_stop_modules_ends}
use blankie.Manager.Contract.{start_stop_modules-same}

-- Modules whose methods raise nothing.
pub record IsReliable {W : Type 0} (classes : Classes W) : Type 0 where
  pub get_quiet : (s : Spec) (w : W) (e : Error) → (classes.get s w).0 ≢ raise e
  pub reconfigure_quiet : (r s : Spec) (w : W) (e : Error) → (classes.reconfigure r s w).0 ≢ raise e
  pub start_quiet : (s : Spec) (m : Manager W) (e : Error) → (classes.start s m).0 ≢ raise e
  pub stop_quiet : (s : Spec) (m : Manager W) (e : Error) → (classes.stop s m).0 ≢ raise e

module _ {W : Type 0} (classes : Classes W) (reliable : IsReliable classes) where
  try_running_quiet :
      (w : Spec) (i : ℕ) (rs : List Spec) (m : Manager W) (e : Error)
      → (try_running classes w i rs m).0 ≢ raise e
  unfolding try_running
  try_running_quiet w i [] m e h = cc
  try_running_quiet w i (r ∷ rs) m e h =
      let (_, x) = classes.get r m.world in
      let y = (classes.reconfigure r w x).1 in
      ground (
        arith,
        reliable.get_quiet r m.world e,
        reliable.reconfigure_quiet r w x e,
        try_running_quiet w (suc i) rs m e,
        try_running_quiet w (suc i) rs (record m { world = y }) e,
      )

  try_wanted_quiet :
      (ws : List Spec) (m : Manager W) (e : Error) → (try_wanted classes ws m).0 ≢ raise e
  unfolding try_wanted
  try_wanted_quiet [] m e h = cc
  try_wanted_quiet (w ∷ ws) m e h = ground (
    arith,
    try_running_quiet w 0 m.running m e,
    try_wanted_quiet ws m e,
    try_wanted_quiet ws (try_running classes w 0 m.running m).1 e,
  )

  perform_quiet :
      (errors : List Spec) (last : Option (ℕ × Spec)) (first : Option Spec) (m : Manager W)
      (e : Error)
      → (perform classes errors last first m).0 ≢ raise e
  unfolding perform stop_one start_one
  perform_quiet errors (some (i, r)) first m e h = ground (arith, reliable.get_quiet r m.world e)
  perform_quiet errors none (some w) m e h = ground (
    arith,
    reliable.get_quiet w m.world e,
    reliable.start_quiet w
        (record m { running = m.running ++ w ∷ []; world = (classes.get w m.world).1 }) e,
  )
  perform_quiet errors none none m e h = cc

  after_step_one_quiet :
      (errors : List Spec) (hit : Bool) (m : Manager W) (e : Error)
      → (after_step_one classes errors hit m).0 ≢ raise e
  unfolding after_step_one
  after_step_one_quiet errors true m e h = cc
  after_step_one_quiet errors false m e h = perform_quiet errors _ _ m e h

  do_one_module_quiet :
      (errors : List Spec) (m : Manager W) (e : Error)
      → (do_one_module classes errors m).0 ≢ raise e
  unfolding do_one_module
  do_one_module_quiet errors m =
      >>=_quiet (try_wanted classes m.wanted) (after_step_one classes errors) m
        (try_wanted_quiet m.wanted m) (λ hit _. after_step_one_quiet errors hit _)

  resume_quiet :
      (fuel : ℕ) (errors : List Spec) (n : Manager W) (p : Progress)
      → ((errors' : List Spec) (e : Error) → (rounds classes fuel errors' n).0 ≢ raise e)
      → (e : Error) → (resume (rounds classes fuel) errors p n).0 ≢ raise e
  resume_quiet fuel errors n idle later e h = cc
  resume_quiet fuel errors n (again errors') later e h = later errors' e h

  rounds_quiet :
      (fuel : ℕ) (errors : List Spec) (m : Manager W) (e : Error)
      → (rounds classes fuel errors m).0 ≢ raise e
  unfolding rounds
  rounds_quiet zero errors m e = λ h. cc
  rounds_quiet (suc fuel) errors m e =
      let n = (do_one_module classes errors m).1 in
      >>=_quiet (do_one_module classes errors) (resume (rounds classes fuel) errors) m
        (do_one_module_quiet errors m)
        (λ p _. resume_quiet fuel errors n p (λ errors'. rounds_quiet fuel errors' n)) e

  Operation-errors :
      (errors errors' : List Spec) (m n : Manager W)
      → errors ≡ []
      → Operation classes errors errors' m.running m.wanted n
      → errors' ≡ []
  Operation-errors errors errors' m n h (reconfigured i r w pair e running wanted) = e ∙ h
  Operation-errors errors errors' m n h (stopped i r x hit e step) = e ∙ h
  Operation-errors errors errors' m n h (failed i r x err k hit e step same) =
      absurd (reliable.stop_quiet r (_) err (ap (λ y. y.0) step))
  Operation-errors errors errors' m n h (started w x k none_unwanted hit e step same) = e ∙ h

  rounds-errors :
      (fuel : ℕ) (final : List Spec) (m n : Manager W)
      → rounds classes fuel [] m ≡ (return final, n)
      → final ≡ []
  rounds-errors fuel final m n h =
      rounds_ind classes (λ es _. es ≡ []) (λ es _. es ≡ []) rule fuel [] final m n refl h
    where
      rule : Rule classes (λ es _. es ≡ []) (λ es _. es ≡ [])
      rule = record {
        keep = λ es es' k l h e.
            Operation-errors es es' k l h (do_one_module-Operation classes es es' k l e);
        finish = λ es k l h e. h;
      }

  start_stop_modules_quiet :
      (fuel : ℕ) (m : Manager W) (e : Error) → (start_stop_modules classes fuel m).0 ≢ raise e
  unfolding start_stop_modules
  start_stop_modules_quiet fuel m =
      let n = (rounds classes fuel [] m).1 in
      >>=_quiet (rounds classes fuel []) report m (rounds_quiet fuel [] m)
        (λ final p e h. report_none final n e (rounds-errors fuel final m n (λ i. (p i, n))) h)
    where
      report_none :
          (final : List Spec) (n : Manager W) (e : Error)
          → final ≡ []
          → (report final n).0 ≢ raise e
      report_none [] n e q h = cc
      report_none (x ∷ xs) n e q h = cc

  -- With modules that raise nothing, that end, and that make no new work when they are started or
  -- stopped, `start_stop_modules` returns, and the running modules are then the wanted ones. As many
  -- rounds as there are wanted and running modules, and one more, are enough for it.
  pub start_stop_modules_returns :
      (tame : IsTame classes) (fuel : ℕ) (m : Manager W)
      → length m.wanted + length m.running < fuel
      → let (r, n) = start_stop_modules classes fuel m in
        (r ≡ return tt) × ((s : Spec) → contains n.running s ≡ contains n.wanted s)
  start_stop_modules_returns tame fuel m enough =
      elim (Outcome-cases (start_stop_modules classes fuel m).0) [
        | inl (_, e) ↦ (
          e,
          start_stop_modules-same classes fuel m (start_stop_modules classes fuel m).1
              (λ i. (e i, (start_stop_modules classes fuel m).1)),
        )
        | inr (inl (x, e)) ↦ absurd (start_stop_modules_quiet fuel m x e)
        | inr (inr e) ↦ absurd (start_stop_modules_ends classes tame fuel m enough e)
      ]
