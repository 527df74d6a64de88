-- ===== src/Manager/Ordered.antt =====
-- Lists of modules in which every module stands behind its dependencies.
use blankie.Prelude.{List, [], ◌∷◌, ◌++◌, Bool, true, false, ◌||◌, ◌≡◌, refl, arith}
use blankie.Spec.{Spec, contains, spec_eq_iff, unique, unique_from, contains-append}

-- `xs` pushed on `seen`, one after the other.
abbrev pub onto : List Spec → List Spec → List Spec
onto [] seen = seen
onto (x ∷ xs) seen = onto xs (x ∷ seen)

pub contains-onto :
    (xs seen : List Spec) (s : Spec)
    → contains (onto xs seen) s ≡ (contains xs s || contains seen s)
unfolding contains
contains-onto [] seen s = refl
contains-onto (x ∷ xs) seen s = ground (arith, contains-onto xs (x ∷ seen) s)

abbrev pub Within : List Spec → List Spec → Type 0
Within xs ys = (s : Spec) → contains xs s ≡ true → contains ys s ≡ true

module _ (dependencies : Spec → List Spec) where
  -- Behind `seen`, every module of the list stands behind all of its dependencies.
  abbrev pub IsOrdered : List Spec → List Spec → Type 0
  IsOrdered seen [] = Unit
  IsOrdered seen (x ∷ xs) = Within (dependencies x) seen × IsOrdered (x ∷ seen) xs

  IsOrdered-mono :
      (xs seen more : List Spec) → Within seen more → IsOrdered seen xs → IsOrdered more xs
  IsOrdered-mono [] seen more sub o = tt
  IsOrdered-mono (x ∷ xs) seen more sub (h, o) =
      (λ d m. sub d (h d m), IsOrdered-mono xs (x ∷ seen) (x ∷ more) (grow x seen more sub) o)
    where
      grow : (x : Spec) (seen more : List Spec) → Within seen more → Within (x ∷ seen) (x ∷ more)
      grow x seen more sub s m = unfold contains in ground (arith, sub s)

  pub IsOrdered-append :
      (xs ys seen : List Spec)
      → IsOrdered seen xs
      → IsOrdered (onto xs seen) ys
      → IsOrdered seen (xs ++ ys)
  IsOrdered-append [] ys seen o o' = o'
  IsOrdered-append (x ∷ xs) ys seen (h, o) o' = (h, IsOrdered-append xs ys (x ∷ seen) o o')

  -- What stands before a member holds its dependencies.
  pub IsOrdered-split :
      (before behind seen : List Spec) (w : Spec)
      → IsOrdered seen (before ++ w ∷ behind)
      → Within (dependencies w) (onto before seen)
  IsOrdered-split [] behind seen w (h, o) = h
  IsOrdered-split (x ∷ xs) behind seen w (h, o) = IsOrdered-split xs behind (x ∷ seen) w o

  pub IsOrdered-unique_from :
      (xs seen : List Spec) → IsOrdered seen xs → IsOrdered seen (unique_from seen xs)
  unfolding unique_from
  IsOrdered-unique_from [] seen o = tt
  IsOrdered-unique_from (x ∷ xs) seen (h, o) =
      go (contains seen x) refl
        (λ e. IsOrdered-unique_from xs seen (
          IsOrdered-mono xs (x ∷ seen) seen
            (λ s m. unfold contains in ground (arith, spec_eq_iff x s)) o))
        (IsOrdered-unique_from xs (x ∷ seen) o)
    where
      go :
          (b : Bool)
          → contains seen x ≡ b
          → (contains seen x ≡ true → IsOrdered seen (unique_from seen xs))
          → IsOrdered (x ∷ seen) (unique_from (x ∷ seen) xs)
          → IsOrdered seen
              (elim b [ true ↦ unique_from seen xs | false ↦ x ∷ unique_from (x ∷ seen) xs ])
      go true e dropped kept = dropped e
      go false e dropped kept = (h, kept)

contains-unique_from :
    (xs seen : List Spec) (s : Spec)
    → (contains (unique_from seen xs) s || contains seen s) ≡ (contains xs s || contains seen s)
unfolding unique_from contains
contains-unique_from [] seen s = refl
contains-unique_from (x ∷ xs) seen s =
    ground
      (arith, spec_eq_iff x s, contains-unique_from xs seen s, contains-unique_from xs (x ∷ seen) s)

pub contains-unique : (xs : List Spec) (s : Spec) → contains (unique xs) s ≡ contains xs s
unfolding unique contains
contains-unique xs s = ground (arith, contains-unique_from xs [] s)

pub Within-cons :
    (s : Spec) (ss here rest : List Spec)
    → contains here s ≡ true
    → Within ss rest
    → Within (s ∷ ss) (here ++ rest)
unfolding contains
Within-cons s ss here rest m sub a n =
    ground (arith, spec_eq_iff s a, contains-append here rest a, sub a)
