-- ===== src/Manager/Termination.antt =====
-- `start_stop_modules` (module.py) ends, if starting and stopping a module does not make new work.
use blankie.Prelude.{
  ℕ, zero, suc, ◌+◌, ◌<◌, List, [], ◌∷◌, ◌++◌, Bool, true, false, length, ◌≡◌, ◌≢◌, subst, arith,
  Option, none, some,
}
use blankie.Exec.{Outcome, return, out_of_fuel, pure, ◌>>◌, >>=_ends}
use blankie.Spec.{Spec, erase_at}
use blankie.Manager.{
  Manager, Classes, Progress, idle, again, try_running, try_wanted, perform, stop_one, start_one,
  after_step_one, do_one_module, resume, report, rounds, start_stop_modules,
}
use blankie.Manager.Searches.{last_unwanted-some, first_missing-some}
use blankie.Manager.Operations.{
  Operation, reconfigured, stopped, failed, started, do_one_module-Operation,
}
use blankie.Manager.Measure.{
  missing-set, extra-set, missing-erase_at, extra-erase_at, missing-insert_at, extra-insert_at,
  missing-snoc, extra-snoc,
}
use blankie.Manager.Work.{AddsNoWork, work, move_last-AddsNoWork, work-le-length}

-- Modules whose methods end and add no work, whether they return or raise. (Those that do not touch
-- the manager's lists are such.)
pub record IsTame {W : Type 0} (classes : Classes W) : Type 0 where
  pub get_ends : (s : Spec) (w : W) → (classes.get s w).0 ≢ out_of_fuel
  pub reconfigure_ends : (r s : Spec) (w : W) → (classes.reconfigure r s w).0 ≢ out_of_fuel
  pub start_ends : (s : Spec) (m : Manager W) → (classes.start s m).0 ≢ out_of_fuel
  pub stop_ends : (s : Spec) (m : Manager W) → (classes.stop s m).0 ≢ out_of_fuel
  pub start_adds : (s : Spec) (m : Manager W) → AddsNoWork m (classes.start s m).1
  pub stop_adds : (s : Spec) (m : Manager W) → AddsNoWork m (classes.stop s m).1

module _ {W : Type 0} (classes : Classes W) (tame : IsTame classes) where
  stop_adds :
      {r : Spec} {m n : Manager W} {o : Outcome (Unit {0})}
      → classes.stop r m ≡ (o, n)
      → AddsNoWork m n
  stop_adds {r} {m} e = subst (λ x. AddsNoWork m x.1) e (tame.stop_adds r m)

  start_adds :
      {w : Spec} {m n : Manager W} {o : Outcome (Unit {0})}
      → classes.start w m ≡ (o, n)
      → AddsNoWork m n
  start_adds {w} {m} e = subst (λ x. AddsNoWork m x.1) e (tame.start_adds w m)

  Operation-work :
      (errors errors' running wanted : List Spec) (n : Manager W)
      → Operation classes errors errors' running wanted n
      → work errors' n.running n.wanted < work errors running wanted
  Operation-work errors errors' running wanted n (reconfigured i r w p same_errors set_at kept) =
      rw (same_errors, set_at, kept)
        (omega (
          arith,
          missing-set wanted errors running i r p.at p.unwanted w p.is_wanted p.missing,
          extra-set wanted errors running i r p.at p.unwanted w p.is_wanted,
        ))
  Operation-work errors errors' running wanted n (stopped i r x found same_errors done) =
      let l = last_unwanted-some wanted errors running i r found in
      let adds = stop_adds done in
      rw same_errors (
        omega (
          arith,
          adds.missing_le,
          adds.extra_le errors,
          missing-erase_at wanted errors running i r l.at l.unwanted,
          extra-erase_at wanted errors running i r l.at l.unwanted l.unfailed,
        ))
  Operation-work errors errors' running wanted n (failed i r x e k found more fails back) =
      let l = last_unwanted-some wanted errors running i r found in
      let adds = stop_adds fails in
      rw (more, back)
        (omega (
          arith,
          adds.missing_le,
          adds.extra_le errors,
          missing-insert_at k.wanted errors k.running i r,
          extra-insert_at k.wanted errors k.running i r,
          missing-erase_at wanted errors running i r l.at l.unwanted,
          extra-erase_at wanted errors running i r l.at l.unwanted l.unfailed,
        ))
  Operation-work errors errors' running wanted n
        (started w x k none_extra found same_errors done moved) =
      let f = first_missing-some running wanted w found in
      let adds = start_adds done in
      let last = move_last-AddsNoWork w k in
      rw (same_errors, moved)
        (omega (
          arith,
          adds.missing_le,
          adds.extra_le errors,
          last.missing_le,
          last.extra_le errors,
          missing-snoc wanted errors running w f.listed f.missing,
          extra-snoc wanted errors running w f.listed,
        ))

  try_running_ends :
      (w : Spec) (i : ℕ) (rs : List Spec) (m : Manager W)
      → (try_running classes w i rs m).0 ≢ out_of_fuel
  unfolding try_running
  try_running_ends w i [] m h = cc
  try_running_ends w i (r ∷ rs) m h =
      let (_, x) = classes.get r m.world in
      let y = (classes.reconfigure r w x).1 in
      ground (
        arith,
        tame.get_ends r m.world,
        tame.reconfigure_ends r w x,
        try_running_ends w (suc i) rs m,
        try_running_ends w (suc i) rs (record m { world = y }),
      )

  try_wanted_ends : (ws : List Spec) (m : Manager W) → (try_wanted classes ws m).0 ≢ out_of_fuel
  unfolding try_wanted
  try_wanted_ends [] m h = cc
  try_wanted_ends (w ∷ ws) m h = ground (
    arith,
    try_running_ends w 0 m.running m,
    try_wanted_ends ws m,
    try_wanted_ends ws (try_running classes w 0 m.running m).1,
  )

  stop_one_ends :
      (errors : List Spec) (i : ℕ) (r : Spec) (m : Manager W)
      → (stop_one classes errors i r m).0 ≢ out_of_fuel
  unfolding stop_one
  stop_one_ends errors i r m h = ground (
    arith,
    tame.get_ends r m.world,
    tame.stop_ends r
        (record m { running = erase_at m.running i; world = (classes.get r m.world).1 }),
  )

  start_one_ends :
      (errors : List Spec) (w : Spec) (m : Manager W)
      → ((start_one classes w >> pure (again errors)) m).0 ≢ out_of_fuel
  unfolding start_one
  start_one_ends errors w m h = ground (
    arith,
    tame.get_ends w m.world,
    tame.start_ends w
        (record m { running = m.running ++ w ∷ []; world = (classes.get w m.world).1 }),
  )

  perform_ends :
      (errors : List Spec) (last : Option (ℕ × Spec)) (first : Option Spec) (m : Manager W)
      → (perform classes errors last first m).0 ≢ out_of_fuel
  unfolding perform
  perform_ends errors (some (i, r)) first m h = stop_one_ends errors i r m h
  perform_ends errors none (some w) m h = start_one_ends errors w m h
  perform_ends errors none none m h = cc

  after_step_one_ends :
      (errors : List Spec) (hit : Bool) (m : Manager W)
      → (after_step_one classes errors hit m).0 ≢ out_of_fuel
  unfolding after_step_one
  after_step_one_ends errors true m h = cc
  after_step_one_ends errors false m h = perform_ends errors _ _ m h

  do_one_module_ends :
      (errors : List Spec) (m : Manager W) → (do_one_module classes errors m).0 ≢ out_of_fuel
  unfolding do_one_module
  do_one_module_ends errors m =
      >>=_ends (try_wanted classes m.wanted) (after_step_one classes errors) m
        (try_wanted_ends m.wanted m) (λ hit _. after_step_one_ends errors hit _)

  resume_ends :
      (fuel : ℕ) (errors : List Spec) (m n : Manager W) (p : Progress)
      → work errors m.running m.wanted < suc fuel
      → do_one_module classes errors m ≡ (return p, n)
      → ((errors' : List Spec)
          → work errors' n.running n.wanted < fuel
          → (rounds classes fuel errors' n).0 ≢ out_of_fuel)
      → (resume (rounds classes fuel) errors p n).0 ≢ out_of_fuel
  resume_ends fuel errors m n idle enough e later h = cc
  resume_ends fuel errors m n (again errors') enough e later h =
      later errors'
        (omega (
          arith,
          Operation-work errors errors' m.running m.wanted n
              (do_one_module-Operation classes errors errors' m n e),
        ))
        h

  -- With tame modules the rounds come to an end: a bound on their number that exceeds the modules
  -- left to start, reconfigure and stop is never used up.
  pub rounds_end :
      (fuel : ℕ) (errors : List Spec) (m : Manager W)
      → work errors m.running m.wanted < fuel
      → (rounds classes fuel errors m).0 ≢ out_of_fuel
  unfolding rounds
  rounds_end zero errors m enough = absurd (omega arith)
  rounds_end (suc fuel) errors m enough =
      let n = (do_one_module classes errors m).1 in
      >>=_ends (do_one_module classes errors) (resume (rounds classes fuel) errors) m
        (do_one_module_ends errors m)
        (λ p e.
          resume_ends fuel errors m n p enough (λ i. (e i, n))
            (λ errors'. rounds_end fuel errors' n))

module _ {W : Type 0} (classes : Classes W) (tame : IsTame classes) where
  -- If the modules' methods end and add no work, then `start_stop_modules` ends: as many rounds as
  -- there are wanted and running modules, and one more, are enough.
  pub start_stop_modules_ends :
      (fuel : ℕ) (m : Manager W)
      → length m.wanted + length m.running < fuel
      → (start_stop_modules classes fuel m).0 ≢ out_of_fuel
  unfolding start_stop_modules
  start_stop_modules_ends fuel m enough =
      >>=_ends (rounds classes fuel []) report m
        (rounds_end classes tame fuel [] m (omega (arith, work-le-length m.running m.wanted)))
        (λ final _. report_ends final _)
    where
      report_ends : (final : List Spec) (n : Manager W) → (report final n).0 ≢ out_of_fuel
      report_ends [] n h = cc
      report_ends (e ∷ es) n h = cc
