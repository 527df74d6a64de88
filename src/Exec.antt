-- ===== src/Exec.antt =====
-- Python code that mutates shared state and may raise. What was written before a raise stays
-- written, so the state comes back beside an exception too.
pub mod Triples
use blankie.Prelude.{String, ◌≡◌, ◌≢◌, refl, ◌⊎◌, inl, inr}

-- `UserError` carries its message, any other exception the name of its class.
pub data Error : Type 0 where
  user_error : String → Error
  exception : String → Error

-- `out_of_fuel` is the model's own: the bound on rounds or on the recursion was too small. No
-- handler catches it.
pub data Outcome {ℓ} (A : Type ℓ) : Type ℓ where
  return : A → Outcome A
  raise : Error → Outcome A
  out_of_fuel : Outcome A

abbrev pub Exec {ℓ} : Type 0 → Type ℓ → Type ℓ
Exec S A = S → Outcome A × S

module _ {ℓ} {S : Type 0} {A : Type ℓ} where
  abbrev pub pure : A → Exec S A
  pure a s = (return a, s)

  abbrev pub throw : Error → Exec S A
  throw e s = (raise e, s)

  abbrev pub diverge : Exec S A
  diverge s = (out_of_fuel, s)

  abbrev pub gets : (S → A) → Exec S A
  gets f s = (return (f s), s)

abbrev pub modify : {S : Type 0} → (S → S) → Exec S (Unit {0})
modify f s = (return tt, f s)

module _ {ℓ κ} {S : Type 0} {A : Type ℓ} {B : Type κ} where
  abbrev pub continue : Outcome A → (A → Exec S B) → Exec S B
  continue (return a) f s = f a s
  continue (raise e) f s = (raise e, s)
  continue out_of_fuel f s = (out_of_fuel, s)

  infixl 5 ◌>>=◌
  abbrev pub ◌>>=◌ : Exec S A → (A → Exec S B) → Exec S B
  ◌>>=◌ m f s = let (r, s') = m s in continue r f s'

infixl 5 ◌>>◌
abbrev pub ◌>>◌ {ℓ} : {S : Type 0} {B : Type ℓ} → Exec S (Unit {0}) → Exec S B → Exec S B
m >> k = m >>= λ _. k

-- `try: m; except Exception: handler`
module _ {S : Type 0} {A : Type 0} where
  abbrev pub handle : Outcome A → (Error → Exec S A) → Exec S A
  handle (return a) h s = (return a, s)
  handle (raise e) h s = h e s
  handle out_of_fuel h s = (out_of_fuel, s)

  abbrev pub try_except : Exec S A → (Error → Exec S A) → Exec S A
  try_except m h s = let (r, s') = m s in handle r h s'

-- Inversion of a bind that returned.
module _ {ℓ κ} {S : Type 0} {A : Type ℓ} {B : Type κ} where
  continue-eq-return :
      (r : Outcome A) (f : A → Exec S B) (s : S) {b : B} {t : S}
      → continue r f s ≡ (return b, t)
      → (a : A) × (r ≡ return a) × (f a s ≡ (return b, t))
  continue-eq-return (return a) f s h = (a, refl, h)
  continue-eq-return (raise e) f s h = cc
  continue-eq-return out_of_fuel f s h = cc

  pub >>=-eq-return :
      (m : Exec S A) (f : A → Exec S B) (s : S) {b : B} {t : S}
      → (m >>= f) s ≡ (return b, t)
      → (a : A) × ((m s).0 ≡ return a) × (f a (m s).1 ≡ (return b, t))
  >>=-eq-return m f s h = continue-eq-return (m s).0 f (m s).1 h

-- A bind has enough fuel if both of its parts have.
module _ {ℓ κ} {S : Type 0} {A : Type ℓ} {B : Type κ} where
  continue_ends :
      (r : Outcome A) (f : A → Exec S B) (s : S)
      → r ≢ out_of_fuel
      → ((a : A) → r ≡ return a → (f a s).0 ≢ out_of_fuel)
      → (continue r f s).0 ≢ out_of_fuel
  continue_ends (return a) f s hr hf h = hf a refl h
  continue_ends (raise e) f s hr hf h = cc
  continue_ends out_of_fuel f s hr hf h = absurd (hr refl)

  pub >>=_ends :
      (m : Exec S A) (f : A → Exec S B) (s : S)
      → (m s).0 ≢ out_of_fuel
      → ((a : A) → (m s).0 ≡ return a → (f a (m s).1).0 ≢ out_of_fuel)
      → ((m >>= f) s).0 ≢ out_of_fuel
  >>=_ends m f s = continue_ends (m s).0 f (m s).1

pub Outcome-cases {ℓ} :
    {A : Type ℓ} (r : Outcome A)
    → ((a : A) × (r ≡ return a)) ⊎ ((e : Error) × (r ≡ raise e)) ⊎ (r ≡ out_of_fuel)
Outcome-cases (return a) = inl (a, refl)
Outcome-cases (raise e) = inr (inl (e, refl))
Outcome-cases out_of_fuel = inr (inr refl)

-- What a `return` returned.
pub return-eq {ℓ} :
    {S : Type 0} {A : Type ℓ} {a b : A} {s t : S}
    → ◌≡◌ {A = Outcome A × S} (return a, s) (return b, t)
    → a ≡ b
return-eq h = cc

-- An action under a handler that ignores the exception returns, unless it has too little fuel.
handle-ignore :
    {S : Type 0} (r : Outcome (Unit {0})) (s : S)
    → r ≢ out_of_fuel
    → (handle r (λ _. pure tt) s).0 ≡ return tt
handle-ignore (return a) s h = refl
handle-ignore (raise e) s h = refl
handle-ignore out_of_fuel s h = absurd (h refl)

pub try_except-ignore :
    {S : Type 0} (m : Exec S (Unit {0})) (s : S)
    → (m s).0 ≢ out_of_fuel
    → (try_except m (λ _. pure tt) s).0 ≡ return tt
try_except-ignore m s h = handle-ignore (m s).0 (m s).1 h

-- A bind raises nothing if neither of its parts does.
module _ {ℓ κ} {S : Type 0} {A : Type ℓ} {B : Type κ} where
  continue_quiet :
      (r : Outcome A) (f : A → Exec S B) (s : S)
      → ((e : Error) → r ≢ raise e)
      → ((a : A) → r ≡ return a → (e : Error) → (f a s).0 ≢ raise e)
      → (e : Error) → (continue r f s).0 ≢ raise e
  continue_quiet (return a) f s hr hf e h = hf a refl e h
  continue_quiet (raise x) f s hr hf e h = absurd (hr x refl)
  continue_quiet out_of_fuel f s hr hf e h = cc

  pub >>=_quiet :
      (m : Exec S A) (f : A → Exec S B) (s : S)
      → ((e : Error) → (m s).0 ≢ raise e)
      → ((a : A) → (m s).0 ≡ return a → (e : Error) → (f a (m s).1).0 ≢ raise e)
      → (e : Error) → ((m >>= f) s).0 ≢ raise e
  >>=_quiet m f s = continue_quiet (m s).0 f (m s).1

abbrev pub Returns {ℓ} : {A : Type ℓ} → Outcome A → Type ℓ
Returns {A} r = (a : A) × (r ≡ return a)

-- A bind returns if both of its parts do.
module _ {ℓ κ} {S : Type 0} {A : Type ℓ} {B : Type κ} where
  pub continue-Returns :
      (r : Outcome A) (f : A → Exec S B) (s : S) (a : A)
      → r ≡ return a
      → Returns (f a s).0
      → Returns (continue r f s).0
  continue-Returns r f s a e h = rw e h

  pub >>=-Returns :
      (m : Exec S A) (f : A → Exec S B) (s : S)
      → Returns (m s).0
      → ((a : A) → Returns (f a (m s).1).0)
      → Returns ((m >>= f) s).0
  >>=-Returns m f s (a, e) h = continue-Returns (m s).0 f (m s).1 a e (h a)

-- A bind keeps what its parts keep, however it ends.
module _ {ℓ κ} {S : Type 0} {A : Type ℓ} {B : Type κ} (P : S → Type 0) where
  continue_keeps :
      (r : Outcome A) (f : A → Exec S B) (s : S)
      → P s
      → ((a : A) → r ≡ return a → P (f a s).1)
      → P (continue r f s).1
  continue_keeps (return a) f s h k = k a refl
  continue_keeps (raise e) f s h k = h
  continue_keeps out_of_fuel f s h k = h

  pub >>=_keeps :
      (m : Exec S A) (f : A → Exec S B) (s : S)
      → P (m s).1
      → ((a : A) → (m s).0 ≡ return a → P (f a (m s).1).1)
      → P ((m >>= f) s).1
  >>=_keeps m f s = continue_keeps (m s).0 f (m s).1
