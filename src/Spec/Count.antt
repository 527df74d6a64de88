-- ===== src/Spec/Count.antt =====
-- Counting the specs of a list that pass a test, through the list operations of module.py.
use blankie.Prelude.{
  ℕ, zero, suc, ◌+◌, ◌≤◌, ◌<◌, List, [], ◌∷◌, ◌++◌, Bool, true, false, ◌||◌, ◌≡◌, refl, some, arith,
  get_elem?, length, set,
}
use blankie.Spec.Defs.{Spec, spec_eq, spec_eq_iff, spec_eq_refl}
use blankie.Spec.Lists.{contains, erase_at, insert_at, remove}

abbrev pub bit : Bool → ℕ
bit true = 1
bit false = 0

unfoldable pub count : (Spec → Bool) → List Spec → ℕ
count p [] = 0
count p (x ∷ xs) = bit (p x) + count p xs

module _ (p q : Spec → Bool) where
  abbrev Implies : List Spec → Type 0
  Implies xs = (x : Spec) → contains xs x ≡ true → p x ≡ true → q x ≡ true

  Implies-tail : (x : Spec) (xs : List Spec) → Implies (x ∷ xs) → Implies xs
  unfolding contains
  Implies-tail x xs h y m = h y (ground (arith, m))

  Implies-head : (x : Spec) (xs : List Spec) → Implies (x ∷ xs) → p x ≡ true → q x ≡ true
  unfolding contains
  Implies-head x xs h = h x (rw (spec_eq_refl x))

  pub count_mono : (xs : List Spec) → Implies xs → count p xs ≤ count q xs
  unfolding count
  count_mono [] h = omega arith
  count_mono (x ∷ xs) h = ground (arith, Implies-head x xs h, count_mono xs (Implies-tail x xs h))

  pub count_lt :
      (a : Spec) (xs : List Spec)
      → Implies xs
      → contains xs a ≡ true
      → p a ≡ false
      → q a ≡ true
      → count p xs < count q xs
  unfolding count contains
  count_lt a [] h m pa qa = cc
  count_lt a (x ∷ xs) h m pa qa =
      let later = Implies-tail x xs h in
      ground (arith, spec_eq_iff x a, Implies-head x xs h, count_mono xs later, count_lt a xs later)

module _ (p : Spec → Bool) where
  pub count-le-length : (xs : List Spec) → count p xs ≤ length xs
  unfolding count
  count-le-length [] = omega arith
  count-le-length (x ∷ xs) = ground (arith, count-le-length xs)

  pub count-append : (xs ys : List Spec) → count p (xs ++ ys) ≡ count p xs + count p ys
  unfolding count
  count-append [] ys = omega arith
  count-append (x ∷ xs) ys = omega (arith, count-append xs ys)

  pub count-set :
      (xs : List Spec) (i : ℕ) (r w : Spec)
      → get_elem? xs i ≡ some r
      → count p (set xs i w) + bit (p r) ≡ count p xs + bit (p w)
  unfolding count
  count-set [] i r w h = cc
  count-set (x ∷ xs) zero r w h = ground arith
  count-set (x ∷ xs) (suc i) r w h = omega (arith, count-set xs i r w h)

  pub count-erase_at :
      (xs : List Spec) (i : ℕ) (r : Spec)
      → get_elem? xs i ≡ some r
      → count p (erase_at xs i) + bit (p r) ≡ count p xs
  unfolding count erase_at
  count-erase_at [] i r h = cc
  count-erase_at (x ∷ xs) zero r h = ground arith
  count-erase_at (x ∷ xs) (suc i) r h = omega (arith, count-erase_at xs i r h)

  pub count-insert_at :
      (xs : List Spec) (i : ℕ) (r : Spec) → count p (insert_at xs i r) ≡ count p xs + bit (p r)
  unfolding count insert_at
  count-insert_at [] zero r = omega arith
  count-insert_at (x ∷ xs) zero r = omega arith
  count-insert_at [] (suc i) r = omega arith
  count-insert_at (x ∷ xs) (suc i) r = omega (arith, count-insert_at xs i r)

  pub count-remove :
      (xs : List Spec) (a : Spec)
      → contains xs a ≡ true
      → count p (remove xs a) + bit (p a) ≡ count p xs
  unfolding count remove contains
  count-remove [] a h = cc
  count-remove (x ∷ xs) a h = ground (arith, spec_eq_iff x a, count-remove xs a)

-- Membership, as a test, through the same operations.
pub contains-append :
    (xs ys : List Spec) (a : Spec) → contains (xs ++ ys) a ≡ (contains xs a || contains ys a)
unfolding contains
contains-append [] ys a = refl
contains-append (x ∷ xs) ys a = ground (arith, contains-append xs ys a)

pub contains-snoc :
    (xs : List Spec) (b a : Spec) → contains (xs ++ b ∷ []) a ≡ (contains xs a || spec_eq b a)
unfolding contains
contains-snoc xs b a = ground (arith, contains-append xs (b ∷ []) a)

pub contains-insert_at :
    (xs : List Spec) (i : ℕ) (b a : Spec)
    → contains (insert_at xs i b) a ≡ (spec_eq b a || contains xs a)
unfolding contains insert_at
contains-insert_at [] zero b a = refl
contains-insert_at (x ∷ xs) zero b a = refl
contains-insert_at [] (suc i) b a = refl
contains-insert_at (x ∷ xs) (suc i) b a = ground (arith, contains-insert_at xs i b a)

-- Only the erased element can be lost.
pub contains-erase_at :
    (xs : List Spec) (i : ℕ) (r a : Spec)
    → get_elem? xs i ≡ some r
    → contains xs a ≡ (spec_eq r a || contains (erase_at xs i) a)
unfolding contains erase_at
contains-erase_at [] i r a h = cc
contains-erase_at (x ∷ xs) zero r a h = ground arith
contains-erase_at (x ∷ xs) (suc i) r a h = ground (arith, contains-erase_at xs i r a h)

pub contains-set :
    (xs : List Spec) (i : ℕ) (r w a : Spec)
    → get_elem? xs i ≡ some r
    → (contains (set xs i w) a || spec_eq r a) ≡ (contains xs a || spec_eq w a)
unfolding contains
contains-set [] i r w a h = cc
contains-set (x ∷ xs) zero r w a h = ground arith
contains-set (x ∷ xs) (suc i) r w a h = ground (arith, contains-set xs i r w a h)

-- Moving an element to the end keeps the members.
pub contains-move_last :
    (xs : List Spec) (b a : Spec)
    → contains xs b ≡ true
    → contains (remove xs b ++ b ∷ []) a ≡ contains xs a
unfolding contains remove
contains-move_last [] b a h = cc
contains-move_last (x ∷ xs) b a h =
    ground (arith, spec_eq_iff x b, contains-snoc xs b a, contains-move_last xs b a)

pub contains-get_elem? :
    (xs : List Spec) (i : ℕ) (a : Spec) → get_elem? xs i ≡ some a → contains xs a ≡ true
unfolding contains
contains-get_elem? [] i a h = cc
contains-get_elem? (x ∷ xs) zero a h = ground (arith, spec_eq_iff x a)
contains-get_elem? (x ∷ xs) (suc i) a h = ground (arith, contains-get_elem? xs i a h)
