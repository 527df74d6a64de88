-- ===== src/Manager/Contract.antt =====
-- The contract of `start_stop_modules` (module.py), whatever the modules do when they are started
-- or stopped: they may run nested updates.
use blankie.Prelude.{
  ℕ, List, [], ◌∷◌, Bool, true, false, ◌≡◌, refl, ◌⊎◌, Option, none, some, arith, ap, subst, ◌≢◌,
  sym, ◌∙◌,
}
use blankie.Exec.{return, pure, ◌>>◌, >>=-eq-return}
use blankie.Spec.{Spec, contains}
use blankie.Manager.Searches.{last_unwanted-none, first_missing-none}
use blankie.Manager.Reconfigure.{try_wanted-false}
use blankie.Manager.Rounds.{Rule, rounds_ind}
use blankie.Manager.{
  Manager, Classes, idle, again, try_wanted, perform, stop_one, start_one, after_step_one,
  do_one_module, report, rounds, start_stop_modules,
}

-- The running modules are the wanted ones and perhaps some of `errors`.
pub record IsSynchronized (errors running wanted : List Spec) : Type 0 where
  pub started : (s : Spec) → contains wanted s ≡ true → contains running s ≡ true
  pub stopped :
      (s : Spec)
      → contains running s ≡ true
      → (contains wanted s ≡ true) ⊎ (contains errors s ≡ true)

IsSynchronized-same :
    {running wanted : List Spec}
    → IsSynchronized [] running wanted
    → (s : Spec) → contains running s ≡ contains wanted s
unfolding contains
IsSynchronized-same h s = ground (arith, h.started s, h.stopped s)

module _ {W : Type 0} (classes : Classes W) where
  stop_one-ne-idle :
      (errors : List Spec) (i : ℕ) (r : Spec) (m m' : Manager W)
      → stop_one classes errors i r m ≢ (return idle, m')
  unfolding stop_one
  stop_one-ne-idle errors i r m m' h = ground arith

  start_one-ne-idle :
      (errors : List Spec) (w : Spec) (m m' : Manager W)
      → (start_one classes w >> pure (again errors)) m ≢ (return idle, m')
  start_one-ne-idle errors w m m' h = ground arith

  perform-idle :
      (errors : List Spec) (found : Option (ℕ × Spec)) (missing : Option Spec) (m m' : Manager W)
      → perform classes errors found missing m ≡ (return idle, m')
      → (found ≡ none) × (missing ≡ none) × (m ≡ m')
  unfolding perform
  perform-idle errors (some (i, r)) missing m m' h = absurd (stop_one-ne-idle errors i r m m' h)
  perform-idle errors none (some w) m m' h = absurd (start_one-ne-idle errors w m m' h)
  perform-idle errors none none m m' h = (refl, refl, ap (λ p. p.1) h)

  after_step_one-idle :
      (errors : List Spec) (hit : Bool) (m m' : Manager W)
      → after_step_one classes errors hit m ≡ (return idle, m')
      → IsSynchronized errors m'.running m'.wanted
  unfolding after_step_one
  after_step_one-idle errors true m m' h = cc
  after_step_one-idle errors false m m' h =
      let (none_unwanted, none_missing, same) = perform-idle errors _ _ m m' h in
      subst (λ n. IsSynchronized errors n.running n.wanted) same
        (record {
          started = λ s. first_missing-none m.running m.wanted s none_missing;
          stopped = λ s. last_unwanted-none m.wanted errors 0 m.running s none_unwanted;
        })

  do_one_module-idle :
      (errors : List Spec) (m m' : Manager W)
      → do_one_module classes errors m ≡ (return idle, m')
      → IsSynchronized errors m'.running m'.wanted
  unfolding do_one_module
  do_one_module-idle errors m m' h =
      let (hit, _, rest) =
        >>=-eq-return (try_wanted classes m.wanted) (after_step_one classes errors) m h in
      after_step_one-idle errors hit _ m' rest

  after_step_one-same :
      (errors : List Spec) (hit : Bool) (m m' : Manager W)
      → after_step_one classes errors hit m ≡ (return idle, m')
      → (hit ≡ false) × (m ≡ m')
  unfolding after_step_one
  after_step_one-same errors true m m' h = cc
  after_step_one-same errors false m m' h =
      let (_, _, same) = perform-idle errors _ _ m m' h in (refl, same)

  -- A round that finds nothing left to do leaves the wanted list alone.
  pub do_one_module-wanted :
      (errors : List Spec) (m m' : Manager W)
      → do_one_module classes errors m ≡ (return idle, m')
      → m'.wanted ≡ m.wanted
  unfolding do_one_module
  do_one_module-wanted errors m m' h =
      let (hit, e, rest) =
        >>=-eq-return (try_wanted classes m.wanted) (after_step_one classes errors) m h in
      let tried = (try_wanted classes m.wanted m).1 in
      let (no_hit, same) = after_step_one-same errors hit tried m' rest in
      let (_, wanted) =
        try_wanted-false classes m.wanted m tried (λ i. ((e ∙ ap return no_hit) i, tried)) in
      ap (λ y. y.wanted) (sym same) ∙ wanted

  -- Whatever the modules do, also if they run nested updates: when the rounds end, every wanted
  -- module is running, and every running module is wanted or among the modules that failed to stop.
  pub rounds-IsSynchronized :
      (fuel : ℕ) (errors final : List Spec) (m m' : Manager W)
      → rounds classes fuel errors m ≡ (return final, m')
      → IsSynchronized final m'.running m'.wanted
  rounds-IsSynchronized fuel errors final m m' h =
      rounds_ind classes (λ _ _. Unit {0}) (λ es n. IsSynchronized es n.running n.wanted) rule fuel
        errors final m m' tt h
    where
      rule : Rule classes (λ _ _. Unit {0}) (λ es n. IsSynchronized es n.running n.wanted)
      rule = record { keep = λ _ _ _ _ _ _. tt; finish = λ es n n' _. do_one_module-idle es n n' }

  pub report-eq-return :
      (final : List Spec) (m m' : Manager W)
      → report final m ≡ (return tt, m')
      → (final ≡ []) × (m ≡ m')
  report-eq-return [] m m' h = (refl, ap (λ x. x.1) h)
  report-eq-return (e ∷ es) m m' h = cc

  -- When `start_stop_modules` returns, whatever the modules do, the running modules and the wanted
  -- modules are the same ones.
  pub start_stop_modules-same :
      (fuel : ℕ) (m m' : Manager W)
      → start_stop_modules classes fuel m ≡ (return tt, m')
      → (s : Spec) → contains m'.running s ≡ contains m'.wanted s
  unfolding start_stop_modules
  start_stop_modules-same fuel m m' h s =
      let (final, e, h') = >>=-eq-return (rounds classes fuel []) report m h in
      let (none_failed, same) = report-eq-return final _ m' h' in
      let sync = rounds-IsSynchronized fuel [] final m m' (λ i. (e i, same i)) in
      IsSynchronized-same (subst (λ es. IsSynchronized es m'.running m'.wanted) none_failed sync) s
