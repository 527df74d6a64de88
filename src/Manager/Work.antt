-- ===== src/Manager/Work.antt =====
-- The work that `start_stop_modules` (module.py) has left, and actions that add none.
use blankie.Prelude.{ℕ, ◌+◌, ◌≤◌, List, [], ◌∷◌, ◌++◌, Bool, true, not, length, ◌≡◌, arith}
use blankie.Spec.{
  Spec, contains, count, count-le-length, remove, count-append, count-remove, contains-move_last,
}
use blankie.Manager.{Manager, move_last}
use blankie.Manager.Measure.{missing, extra, is_extra, missing_same}

-- From `m` to `n` the wanted modules stayed, and no work was added.
pub record AddsNoWork {W : Type 0} (m n : Manager W) : Type 0 where
  pub wanted : n.wanted ≡ m.wanted
  pub missing_le : missing n.running n.wanted ≤ missing m.running m.wanted
  pub extra_le :
      (errors : List Spec) → extra n.wanted errors n.running ≤ extra m.wanted errors m.running

abbrev pub work : List Spec → (running wanted : List Spec) → ℕ
work errors running wanted = missing running wanted + extra wanted errors running

extra-move_last :
    (p : Spec → Bool) (xs : List Spec) (w : Spec)
    → contains xs w ≡ true
    → count p (remove xs w ++ w ∷ []) ≡ count p xs
unfolding count
extra-move_last p xs w m =
    omega (arith, count-append p (remove xs w) (w ∷ []), count-remove p xs w m)

pub move_last-AddsNoWork : {W : Type 0} (w : Spec) (m : Manager W) → AddsNoWork m (move_last w m)
unfolding move_last extra
move_last-AddsNoWork w m = record {
  wanted = ground arith;
  missing_le = ground (
    arith,
    λ (h : contains m.running w ≡ true).
        missing_same m.wanted [] m.running (remove m.running w ++ w ∷ [])
          (λ s. contains-move_last m.running w s h),
  );
  extra_le = λ errors. ground (arith, extra-move_last (is_extra m.wanted errors) m.running w);
}

pub work-le-length :
    (running wanted : List Spec) → work [] running wanted ≤ length wanted + length running
unfolding missing extra
work-le-length running wanted = omega (
  arith,
  count-le-length (λ s. not (contains running s)) wanted,
  count-le-length (is_extra wanted []) running,
)
