-- ===== src/Manager/Measure.antt =====
-- How much work `start_stop_modules` (module.py) has left, and how its operations change that.
use blankie.Prelude.{
  ℕ, ◌+◌, ◌≤◌, ◌<◌, List, [], ◌∷◌, ◌++◌, Bool, true, false, not, ◌&&◌, ◌≡◌, some, arith, get_elem?,
  set,
}
use blankie.Spec.{
  Spec, contains, erase_at, insert_at, spec_eq_iff, spec_eq_refl, count, count_mono, count_lt,
  count-append, count-set, count-erase_at, count-insert_at, contains-snoc, contains-set,
  contains-erase_at, contains-insert_at,
}

-- The wanted modules that are not running.
unfoldable pub missing : (running wanted : List Spec) → ℕ
missing running wanted = count (λ s. not (contains running s)) wanted

abbrev pub is_extra : (wanted errors : List Spec) → Spec → Bool
is_extra wanted errors s = not (contains wanted s) && not (contains errors s)

-- The running modules that are neither wanted nor failed.
unfoldable pub extra : (wanted errors running : List Spec) → ℕ
extra wanted errors running = count (is_extra wanted errors) running

module _ (wanted errors running : List Spec) where
  module _ (i : ℕ) (r : Spec) (at : get_elem? running i ≡ some r)
      (unwanted : contains wanted r ≡ false) where
    pub missing-set :
        (w : Spec)
        → contains wanted w ≡ true
        → contains running w ≡ false
        → missing (set running i w) wanted < missing running wanted
    unfolding missing
    missing-set w is_wanted absent =
        count_lt _ _ w wanted
          (λ x m h. ground (arith, contains-set running i r w x at, spec_eq_iff r x)) is_wanted
          (ground (arith, contains-set running i r w w at, spec_eq_refl w, spec_eq_iff r w))
          (ground arith)

    pub extra-set :
        (w : Spec)
        → contains wanted w ≡ true
        → extra wanted errors (set running i w) ≤ extra wanted errors running
    unfolding extra
    extra-set w is_wanted = ground (arith, count-set (is_extra wanted errors) running i r w at)

    pub missing-erase_at : missing (erase_at running i) wanted ≤ missing running wanted
    unfolding missing
    missing-erase_at =
        count_mono _ _ wanted
          (λ x m h. ground (arith, contains-erase_at running i r x at, spec_eq_iff r x))

    pub extra-erase_at :
        contains errors r ≡ false
        → extra wanted errors (erase_at running i) + 1 ≡ extra wanted errors running
    unfolding extra
    extra-erase_at fresh = ground (arith, count-erase_at (is_extra wanted errors) running i r at)

  pub missing-insert_at :
      (i : ℕ) (r : Spec) → missing (insert_at running i r) wanted ≤ missing running wanted
  unfolding missing
  missing-insert_at i r =
      count_mono _ _ wanted (λ x m h. ground (arith, contains-insert_at running i r x))

  pub extra-insert_at :
      (i : ℕ) (r : Spec)
      → extra wanted (errors ++ r ∷ []) (insert_at running i r) ≤ extra wanted errors running
  unfolding extra
  extra-insert_at i r =
      let p = is_extra wanted (errors ++ r ∷ []) in
      ground (
        arith,
        count-insert_at p running i r,
        contains-snoc errors r r,
        spec_eq_refl r,
        count_mono p (is_extra wanted errors) running
            (λ x m h. ground (arith, contains-snoc errors r x)),
      )

  pub missing-snoc :
      (w : Spec)
      → contains wanted w ≡ true
      → contains running w ≡ false
      → missing (running ++ w ∷ []) wanted < missing running wanted
  unfolding missing
  missing-snoc w is_wanted absent =
      count_lt _ _ w wanted (λ x m h. ground (arith, contains-snoc running w x)) is_wanted
        (ground (arith, contains-snoc running w w, spec_eq_refl w)) (ground arith)

  pub extra-snoc :
      (w : Spec)
      → contains wanted w ≡ true
      → extra wanted errors (running ++ w ∷ []) ≤ extra wanted errors running
  unfolding extra count
  extra-snoc w is_wanted = ground (arith, count-append (is_extra wanted errors) running (w ∷ []))

-- Steps that keep the members of the running list keep the work.
module _ (wanted errors running running' : List Spec)
    (same : (s : Spec) → contains running' s ≡ contains running s) where
  pub missing_same : missing running' wanted ≤ missing running wanted
  unfolding missing
  missing_same = count_mono _ _ wanted (λ x m h. ground (arith, same x))
