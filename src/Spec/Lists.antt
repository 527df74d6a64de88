-- ===== src/Spec/Lists.antt =====
-- Python's list operations on module specs, as module.py uses them.
use blankie.Prelude.{ℕ, zero, suc, List, [], ◌∷◌, Bool, true, false, ◌||◌, if◌then◌else◌}
use blankie.Spec.Defs.{Spec, spec_eq}

-- `a in xs`
unfoldable pub contains : List Spec → Spec → Bool
contains [] a = false
contains (x ∷ xs) a = spec_eq x a || contains xs a

-- `del xs[i]`
unfoldable pub erase_at : List Spec → ℕ → List Spec
erase_at [] i = []
erase_at (x ∷ xs) zero = xs
erase_at (x ∷ xs) (suc i) = x ∷ erase_at xs i

-- `xs.insert(i, a)`: past the end it appends.
unfoldable pub insert_at : List Spec → ℕ → Spec → List Spec
insert_at xs zero a = a ∷ xs
insert_at [] (suc i) a = a ∷ []
insert_at (x ∷ xs) (suc i) a = x ∷ insert_at xs i a

-- `xs.remove(a)`: the first occurrence.
unfoldable pub remove : List Spec → Spec → List Spec
remove [] a = []
remove (x ∷ xs) a = if spec_eq x a then xs else x ∷ remove xs a

-- `list(dict.fromkeys(xs))`, after the keys `seen`.
unfoldable pub unique_from : List Spec → List Spec → List Spec
unique_from seen [] = []
unique_from seen (x ∷ xs) = elim (contains seen x) [
  | true ↦ unique_from seen xs
  | false ↦ x ∷ unique_from (x ∷ seen) xs
]

unfoldable pub unique : List Spec → List Spec
unfolding unique_from
unique xs = unique_from [] xs
