-- ===== src/Spec/Defs.antt =====
-- Module specs: the Python tuples that name a module and its parameters (module.py).
pub use package.text.Mathlib.Text.{◌==◌ as str_eq}
use package.text.Mathlib.TextEquality.{eq_iff}
use blankie.Prelude.{
  ℕ, String, List, Bool, true, false, ◌≡◌, refl, ◌↔◌, inl, inr, Bool-cases, ℕ_discrete,
}

-- A tuple's element: a string, a number of seconds, a frozenset of them, or a tuple.
mutual
  pub data Value : Type 0 where
    text : String → Value
    number : ℕ → Value
    numbers : List ℕ → Value
    tuple : Values → Value

  pub data Values : Type 0 where
    nil : Values
    cons : Value → Values → Values

-- `module_spec[0]` and `module_spec[1:]`.
pub record Spec : Type 0 where
  pub name : String
  pub params : Values

pub str_eq-true : {s t : String} → s ≡ t → str_eq s t ≡ true
str_eq-true {s} {t} e = (eq_iff s t).1 e

pub str_eq-eq : {s t : String} → str_eq s t ≡ true → s ≡ t
str_eq-eq {s} {t} e = (eq_iff s t).0 e

unfoldable pub String-discrete : Discrete String
String-discrete s t = elim (Bool-cases (str_eq s t)) [
  | inl e ↦ yes ((eq_iff s t).0 e)
  | inr e ↦ no (λ p. cc (str_eq-true p))
]

unfoldable pub Spec-discrete : Discrete Spec
unfolding String-discrete ℕ_discrete Bool-cases
Spec-discrete = hlevel (String-discrete, ℕ_discrete)

abbrev is_yes {ℓ} : {A : Type ℓ} → Dec A → Bool
is_yes (yes _) = true
is_yes (no _) = false

-- `a == b` on specs.
unfoldable pub spec_eq : Spec → Spec → Bool
unfolding Spec-discrete
spec_eq a b = is_yes (Spec-discrete a b)

pub spec_eq_iff : (a b : Spec) → (spec_eq a b ≡ true) ↔ (a ≡ b)
unfolding spec_eq
spec_eq_iff a b = go (Spec-discrete a b)
  where
    go : (d : Dec (a ≡ b)) → (is_yes d ≡ true) ↔ (a ≡ b)
    go (yes p) = (λ _. p, λ _. refl)
    go (no n) = (λ h. cc, λ p. absurd (n p))

pub spec_eq_refl : (a : Spec) → spec_eq a a ≡ true
spec_eq_refl a = (spec_eq_iff a a).1 refl
