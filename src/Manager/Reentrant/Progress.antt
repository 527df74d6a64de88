-- ===== src/Manager/Reentrant/Progress.antt =====
-- One operation of `start_stop_modules` (module.py) whose modules may run nested updates.
use blankie.Prelude.{
  ℕ, ◌≤◌, ◌<◌, List, [], ◌∷◌, ◌++◌, ◌≡◌, ◌≢◌, refl, sym, ◌∙◌, ap, subst, subst₂, arith, some,
}
use blankie.Exec.{Error, Outcome, return, raise}
use blankie.Spec.{Spec, erase_at}
use blankie.Manager.{Manager, Classes, move_last, last_unwanted, first_missing}
use blankie.Manager.Searches.{last_unwanted-some, first_missing-some}
use blankie.Manager.Operations.{Operation, reconfigured, stopped, failed, started}
use blankie.Manager.Measure.{
  missing-set, extra-set, missing-erase_at, extra-erase_at, missing-snoc, extra-snoc,
}
use blankie.Manager.Work.{work, move_last-AddsNoWork}
use blankie.Manager.Reentrant.{Leaves, Mild}

module _ (ws : List Spec) where
  pub stop_less :
      (running : List Spec) (i : ℕ) (r : Spec)
      → last_unwanted ws [] 0 running ≡ some (i, r)
      → work [] (erase_at running i) ws < work [] running ws
  stop_less running i r found =
      let l = last_unwanted-some ws [] running i r found in
      omega (
        arith,
        missing-erase_at ws [] running i r l.at l.unwanted,
        extra-erase_at ws [] running i r l.at l.unwanted l.unfailed,
      )

  pub start_less :
      (running : List Spec) (w : Spec)
      → first_missing running ws ≡ some w
      → work [] (running ++ w ∷ []) ws < work [] running ws
  start_less running w found =
      let f = first_missing-some running ws w found in
      omega (
        arith,
        missing-snoc ws [] running w f.listed f.missing,
        extra-snoc ws [] running w f.listed,
      )

module _ {W : Type 0} (classes : Classes W) (ws : List Spec) (k : ℕ)
    (stops : (s : Spec) → Mild ws k (classes.stop s))
    (starts : (s : Spec) → Mild ws k (classes.start s)) where
  -- What one operation leaves of the work.
  pub record Progresses (es running : List Spec) (n : Manager W) : Type 0 where
    pub none_failed : es ≡ []
    pub wanted : n.wanted ≡ ws
    pub less : work [] n.running ws < work [] running ws

  move_last-work :
      (w : Spec) (j : Manager W)
      → j.wanted ≡ ws
      → ((move_last w j).wanted ≡ ws) × (work [] (move_last w j).running ws ≤ work [] j.running ws)
  move_last-work w j h =
      let last = move_last-AddsNoWork w j in
      (
        last.wanted ∙ h,
        subst₂ (λ a b. work [] (move_last w j).running a ≤ work [] j.running b) (last.wanted ∙ h) h
            (omega (arith, last.missing_le, last.extra_le [])),
      )

  pub Operation-Progresses :
      (es running : List Spec) (n : Manager W)
      → work [] running ws ≤ k
      → Operation classes [] es running ws n
      → Progresses es running n
  Operation-Progresses es running n small (reconfigured i r w p none_failed set_at kept) = record {
    none_failed = none_failed;
    wanted = kept;
    less = rw set_at (
        omega (
          arith,
          missing-set ws [] running i r p.at p.unwanted w p.is_wanted p.missing,
          extra-set ws [] running i r p.at p.unwanted w p.is_wanted,
        ));
  }
  Operation-Progresses es running n small (stopped i r x found none_failed done) =
      let less = stop_less ws running i r found in
      let m : Manager W = record { running = erase_at running i; wanted = ws; world = x } in
      let l =
        subst (λ y. Leaves ws (work [] m.running ws) y) done
          (stops r m refl (omega (arith, less))) in
      record { none_failed = none_failed; wanted = l.wanted; less = omega (arith, less, l.work_le) }
  Operation-Progresses es running n small (failed i r x e j found more fails back) =
      let less = stop_less ws running i r found in
      let m : Manager W = record { running = erase_at running i; wanted = ws; world = x } in
      absurd
        (raise≢return (sym (ap (λ y. y.0) fails) ∙ (stops r m refl (omega (arith, less))).returned))
    where
      raise≢return : {e : Error} → ◌≢◌ {A = Outcome (Unit {0})} (raise e) (return tt)
      raise≢return q = cc
  Operation-Progresses es running n small (started w x j none_extra found none_failed done moved) =
      let less = start_less ws running w found in
      let m : Manager W = record { running = running ++ w ∷ []; wanted = ws; world = x } in
      let l =
        subst (λ y. Leaves ws (work [] m.running ws) y) done
          (starts w m refl (omega (arith, less))) in
      let (kept, last) = move_last-work w j l.wanted in
      record {
        none_failed = none_failed;
        wanted = ap (λ y. y.wanted) moved ∙ kept;
        less = rw moved (omega (arith, less, l.work_le, last));
      }
