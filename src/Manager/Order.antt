-- ===== src/Manager/Order.antt =====
-- Dependencies come first: `update` lists them before their dependents, and starts and stops in
-- that order (module.py).
use blankie.Prelude.{
  ℕ, zero, suc, List, [], ◌∷◌, true, false, ◌≡◌, refl, some, arith, ap, Bool-cases, inl, inr, subst,
  sym, get_elem?, ◌<◌,
}
use blankie.Exec.{Exec, return, return-eq, >>=-eq-return}
use blankie.Spec.{
  Spec, contains, spec_eq, spec_eq_iff, spec_eq_refl, unique, contains-snoc, contains-get_elem?,
}
use blankie.Manager.{Classes, first_missing, last_unwanted}
use blankie.Manager.Update.{collect, add}
use blankie.Manager.Searches.{first_missing-some, last_unwanted-some}
use blankie.Manager.Ordered.{
  onto, contains-onto, Within, IsOrdered, IsOrdered-append, IsOrdered-split, IsOrdered-unique_from,
  contains-unique, Within-cons,
}

module _ {W : Type 0} (classes : Classes W) where
  -- A list of modules with all their dependencies, which may follow any other list.
  record IsComplete (l : List Spec) : Type 0 where
    ordered : (seen : List Spec) → IsOrdered classes.dependencies seen l

  -- What one call of the visitor must give.
  abbrev Visits : (Spec → Exec W (List Spec)) → Type 0
  Visits visit =
      (s : Spec) (w w' : W) (l : List Spec)
      → visit s w ≡ (return l, w')
      → IsComplete l × (contains l s ≡ true)

  collect-IsComplete :
      (visit : Spec → Exec W (List Spec))
      → Visits visit
      → (ss : List Spec) (w w' : W) (l : List Spec) → collect visit ss w ≡ (return l, w')
      → IsComplete l × Within ss l
  unfolding collect
  collect-IsComplete visit good [] w w' l h =
      subst (λ x. IsComplete x × Within [] x) (return-eq h)
        (record { ordered = λ seen. tt }, λ s m. m)
  collect-IsComplete visit good (s ∷ ss) w w' l h =
      let (here, e, h') = >>=-eq-return (visit s) _ w h in
      let (rest, e', h'') = >>=-eq-return (collect visit ss) _ (visit s w).1 h' in
      let (first, first_has) = good s w _ here (λ i. (e i, (visit s w).1)) in
      let (others, others_have) =
        collect-IsComplete visit good ss _ _ rest
          (λ i. (e' i, (collect visit ss (visit s w).1).1)) in
      subst (λ x. IsComplete x × Within (s ∷ ss) x) (return-eq h'')
        (
          record {
            ordered = λ seen.
                IsOrdered-append classes.dependencies here rest seen (first.ordered seen)
                  (others.ordered (onto here seen));
          },
          Within-cons s ss here rest first_has others_have,
        )

  add-Visits : (depth : ℕ) → Visits (add classes depth)
  unfolding add
  add-Visits zero s w w' l h = cc
  add-Visits (suc depth) s w w' l h =
      let (_, _, h') = >>=-eq-return (classes.get s) _ w h in
      let x = (classes.get s w).1 in
      let deps = classes.dependencies s in
      let (before, e, h'') = >>=-eq-return (collect (add classes depth) deps) _ x h' in
      let (complete, has) =
        collect-IsComplete (add classes depth) (add-Visits depth) deps x _ before
          (λ i. (e i, (collect (add classes depth) deps x).1)) in
      subst (λ y. IsComplete y × (contains y s ≡ true)) (return-eq h'')
        (
          record {
            ordered = λ seen.
                IsOrdered-append classes.dependencies before (s ∷ []) seen (complete.ordered seen)
                  (λ d m. rw (contains-onto before seen d, has d m), tt);
          },
          ground (arith, contains-snoc before s s, spec_eq_refl s),
        )

  -- Step 1 of `update`: the list of wanted modules that it computes from those chosen by the
  -- selectors holds these, and in it every module stands behind all of its dependencies.
  pub wanted-IsOrdered :
      (depth : ℕ) (chosen : List Spec) (w w' : W) (l : List Spec)
      → collect (add classes depth) chosen w ≡ (return l, w')
      → IsOrdered classes.dependencies [] (unique l) × Within chosen (unique l)
  unfolding unique
  wanted-IsOrdered depth chosen w w' l h =
      let (complete, has) =
        collect-IsComplete (add classes depth) (add-Visits depth) chosen w w' l h in
      (
        IsOrdered-unique_from classes.dependencies l [] (complete.ordered []),
        λ s m. rw (contains-unique l s) (has s m),
      )

-- If the wanted list is in dependency order, then the module that step 3 starts next has all of its
-- dependencies running.
pub first_missing-dependencies :
    (dependencies : Spec → List Spec) (running wanted : List Spec) (w : Spec)
    → IsOrdered dependencies [] wanted
    → first_missing running wanted ≡ some w
    → Within (dependencies w) running
unfolding contains
first_missing-dependencies dependencies running wanted w o h d m =
    let f = first_missing-some running wanted w h in
    f.present d (
      ground (
        arith,
        contains-onto f.before [] d,
        IsOrdered-split dependencies f.before f.behind [] w
            (subst (IsOrdered dependencies []) f.split o) d m,
      ))

-- Every module stands in the list once.
abbrev pub IsDistinct : List Spec → Type 0
IsDistinct [] = Unit
IsDistinct (x ∷ xs) = (contains xs x ≡ false) × IsDistinct xs

some-eq : {a b : Spec} → some a ≡ some b → a ≡ b
some-eq h = cc

contains-index :
    (xs : List Spec) (s : Spec) → contains xs s ≡ true → (j : ℕ) × (get_elem? xs j ≡ some s)
unfolding contains
contains-index [] s m = cc
contains-index (x ∷ xs) s m = elim (Bool-cases (spec_eq x s)) [
  | inl e ↦ (0, ap some ((spec_eq_iff x s).0 e))
  | inr e ↦ let (j, at) = contains-index xs s (ground arith) in (suc j, at)
]

module _ (dependencies : Spec → List Spec) where
  dependent_behind :
      (xs seen : List Spec) (i j : ℕ) (r s : Spec)
      → IsOrdered dependencies seen xs
      → IsDistinct xs
      → contains seen r ≡ false
      → get_elem? xs i ≡ some r
      → get_elem? xs j ≡ some s
      → contains (dependencies s) r ≡ true
      → i < j
  unfolding contains
  dependent_behind [] seen i j r s o d n at at' m = cc
  dependent_behind (x ∷ xs) seen zero zero r s (h, o) d n at at' m =
      ground (arith, h r (subst (λ y. contains (dependencies y) r ≡ true) (sym (some-eq at')) m))
  dependent_behind (x ∷ xs) seen zero (suc j) r s (h, o) d n at at' m = omega arith
  dependent_behind (x ∷ xs) seen (suc i) zero r s (h, o) d n at at' m =
      ground (arith, h r (subst (λ y. contains (dependencies y) r ≡ true) (sym (some-eq at')) m))
  dependent_behind (x ∷ xs) seen (suc i) (suc j) r s (h, o) (once, d) n at at' m = omega (
    arith,
    dependent_behind xs (x ∷ seen) i j r s o d
        (ground (arith, spec_eq_iff x r, contains-get_elem? xs i r at)) at at' m,
  )

  -- If the running list is in dependency order with no repetition, and the wanted modules include
  -- their dependencies, then among the running modules only ones that have failed to stop depend on
  -- the module that step 2 stops next.
  pub last_unwanted-dependents :
      (running wanted errors : List Spec) (i : ℕ) (r s : Spec)
      → IsOrdered dependencies [] running
      → IsDistinct running
      → ((w : Spec) → contains wanted w ≡ true → Within (dependencies w) wanted)
      → last_unwanted wanted errors 0 running ≡ some (i, r)
      → contains running s ≡ true
      → contains (dependencies s) r ≡ true
      → contains errors s ≡ true
  unfolding contains
  last_unwanted-dependents running wanted errors i r s o d closed found m dep =
      let l = last_unwanted-some wanted errors running i r found in
      let (j, at) = contains-index running s m in
      elim (l.behind j s (dependent_behind running [] i j r s o d refl l.at at dep) at) [
        | inl is_wanted ↦ ground (arith, l.unwanted, closed s is_wanted r dep)
        | inr failed ↦ failed
      ]
