-- ===== src/Manager/Searches.antt =====
-- What the searches of `do_one_module` (module.py) find, and what it means that they find nothing.
use native.Mathlib.Nat.{add-zero, add-suc, suc-add}
use blankie.Prelude.{
  ℕ, zero, suc, ◌+◌, ◌<◌, List, [], ◌∷◌, ◌++◌, true, false, ◌≡◌, ◌⊎◌, inl, inr, none, some, arith,
  get_elem?, subst, ◌∙◌,
}
use blankie.Spec.{Spec, contains, spec_eq_iff, spec_eq_refl, contains-get_elem?}
use blankie.Manager.{last_unwanted, first_missing}

pub last_unwanted-none :
    (wanted errors : List Spec) (i : ℕ) (rs : List Spec) (s : Spec)
    → last_unwanted wanted errors i rs ≡ none
    → contains rs s ≡ true
    → (contains wanted s ≡ true) ⊎ (contains errors s ≡ true)
unfolding last_unwanted contains
last_unwanted-none wanted errors i [] s h m = cc
last_unwanted-none wanted errors i (r ∷ rs) s h m =
    ground (arith, spec_eq_iff r s, last_unwanted-none wanted errors (suc i) rs s)

pub first_missing-none :
    (running ws : List Spec) (s : Spec)
    → first_missing running ws ≡ none
    → contains ws s ≡ true
    → contains running s ≡ true
unfolding first_missing contains
first_missing-none running [] s h m = cc
first_missing-none running (w ∷ ws) s h m =
    ground (arith, spec_eq_iff w s, first_missing-none running ws s)

-- `r` stands at `i`, is neither wanted nor failed, and every module behind it is one of these.
pub record IsLastUnwanted (wanted errors running : List Spec) (i : ℕ) (r : Spec) : Type 0 where
  pub at : get_elem? running i ≡ some r
  pub unwanted : contains wanted r ≡ false
  pub unfailed : contains errors r ≡ false
  pub behind :
      (j : ℕ) (s : Spec)
      → i < j
      → get_elem? running j ≡ some s
      → (contains wanted s ≡ true) ⊎ (contains errors s ≡ true)

module _ (wanted errors : List Spec) where
  last_unwanted-cons :
      (i k : ℕ) (x r : Spec) (xs : List Spec)
      → last_unwanted wanted errors i (x ∷ xs) ≡ some (k, r)
      → (last_unwanted wanted errors (suc i) xs ≡ some (k, r))
        ⊎ (last_unwanted wanted errors (suc i) xs ≡ none)
          × (i ≡ k)
          × (x ≡ r)
          × (contains wanted x ≡ false)
          × (contains errors x ≡ false)
  unfolding last_unwanted
  last_unwanted-cons i k x r xs h = ground arith

  module _ (x : Spec) (xs : List Spec) where
    behind-zero :
        (j : ℕ) (s : Spec) (i : ℕ)
        → last_unwanted wanted errors i xs ≡ none
        → 0 < j
        → get_elem? (x ∷ xs) j ≡ some s
        → (contains wanted s ≡ true) ⊎ (contains errors s ≡ true)
    behind-zero zero s i h lt at = absurd (omega arith)
    behind-zero (suc j) s i h lt at =
        last_unwanted-none wanted errors i xs s h (contains-get_elem? xs j s at)

    behind-suc :
        (j : ℕ) (s : Spec) (i : ℕ) (r : Spec)
        → IsLastUnwanted wanted errors xs i r
        → suc i < j
        → get_elem? (x ∷ xs) j ≡ some s
        → (contains wanted s ≡ true) ⊎ (contains errors s ≡ true)
    behind-suc zero s i r l lt at = absurd (omega arith)
    behind-suc (suc j) s i r l lt at = l.behind j s (omega arith) at

    IsLastUnwanted-cons :
        (i : ℕ) (r : Spec)
        → IsLastUnwanted wanted errors xs i r
        → IsLastUnwanted wanted errors (x ∷ xs) (suc i) r
    IsLastUnwanted-cons i r l = record {
      at = l.at;
      unwanted = l.unwanted;
      unfailed = l.unfailed;
      behind = λ j s lt at. behind-suc j s i r l lt at;
    }

  last_unwanted-from :
      (i k : ℕ) (r : Spec) (xs : List Spec)
      → last_unwanted wanted errors i xs ≡ some (k, r)
      → (j : ℕ) × (i + j ≡ k) × IsLastUnwanted wanted errors xs j r
  unfolding last_unwanted
  last_unwanted-from i k r [] h = cc
  last_unwanted-from i k r (x ∷ xs) h = elim (last_unwanted-cons i k x r xs h) [
    | inl h' ↦
        let (j, e, l) = last_unwanted-from (suc i) k r xs h' in
        (suc j, rw (add-suc, ← suc-add) e, IsLastUnwanted-cons x xs j r l)
    | inr (nothing, e, same, unwanted, unfailed) ↦ (
      0,
      add-zero i ∙ e,
      record {
        at = cc;
        unwanted = rw same at unwanted;
        unfailed = rw same at unfailed;
        behind = λ j s lt at. behind-zero x xs j s (suc i) nothing lt at;
      },
    )
  ]

pub last_unwanted-some :
    (wanted errors running : List Spec) (i : ℕ) (r : Spec)
    → last_unwanted wanted errors 0 running ≡ some (i, r)
    → IsLastUnwanted wanted errors running i r
last_unwanted-some wanted errors running i r h =
    let (j, e, l) = last_unwanted-from wanted errors 0 i r running h in
    subst (λ k. IsLastUnwanted wanted errors running k r) (omega arith) l

-- `w` is wanted and not running, and the wanted modules before it are running.
pub record IsFirstMissing (running wanted : List Spec) (w : Spec) : Type 0 where
  pub before : List Spec
  pub behind : List Spec
  pub split : wanted ≡ before ++ w ∷ behind
  pub listed : contains wanted w ≡ true
  pub missing : contains running w ≡ false
  pub present : (s : Spec) → contains before s ≡ true → contains running s ≡ true

first_missing-cons :
    (running ws : List Spec) (v w : Spec)
    → first_missing running (v ∷ ws) ≡ some w
    → (contains running v ≡ false) × (v ≡ w)
      ⊎ (contains running v ≡ true) × (first_missing running ws ≡ some w)
unfolding first_missing
first_missing-cons running ws v w h = ground arith

pub first_missing-some :
    (running wanted : List Spec) (w : Spec)
    → first_missing running wanted ≡ some w
    → IsFirstMissing running wanted w
unfolding first_missing contains
first_missing-some running [] w h = cc
first_missing-some running (v ∷ ws) w h = elim (first_missing-cons running ws v w h) [
  | inl (missing, same) ↦ record {
    before = [];
    behind = ws;
    split = rw same;
    listed = rw (same, spec_eq_refl w);
    missing = rw same at missing;
    present = λ s m. cc;
  }
  | inr (running_v, h') ↦
      let f = first_missing-some running ws w h' in
      record {
        before = v ∷ f.before;
        behind = f.behind;
        split = rw (← f.split);
        listed = ground (arith, f.listed);
        missing = f.missing;
        present = λ s m. ground (arith, spec_eq_iff v s, f.present s);
      }
]
