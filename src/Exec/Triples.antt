-- ===== src/Exec/Triples.antt =====
-- Rules for what Python code leaves when it returns.
use blankie.Prelude.{Bool, true, false, ◌≡◌, refl, subst, ap, if◌then◌else◌}
use blankie.Exec.{
  Outcome, return, raise, out_of_fuel, Exec, pure, modify, gets, handle, try_except, continue,
  ◌>>=◌, ◌>>◌, >>=-eq-return,
}

-- If the action is run where `P` holds, and returns, then `Q` holds of its result and of the state.
abbrev pub Triple {ℓ} :
    {S : Type 0} {A : Type ℓ} → (S → Type 0) → Exec S A → (A → S → Type 0) → Type ℓ
Triple {S} {A} P act Q = (s t : S) (a : A) → P s → act s ≡ (return a, t) → Q a t

module _ {ℓ} {S : Type 0} {A : Type ℓ} (P : S → Type 0) (Q : A → S → Type 0) where
  pub Triple-pure : (a : A) → ((s : S) → P s → Q a s) → Triple P (pure a) Q
  Triple-pure a h s t b p e = subst (λ x. Q b x) (ap (λ y. y.1) e) (subst (λ x. Q x s) (cc) (h s p))

  pub Triple-if :
      (test : S → Bool) (x y : Exec S A)
      → Triple P x Q
      → Triple P y Q
      → Triple P (λ s. (if test s then x else y) s) Q
  Triple-if test x y hx hy s t a p e = go (test s) e
    where
      go : (b : Bool) → (if b then x else y) s ≡ (return a, t) → Q a t
      go true e = hx s t a p e
      go false e = hy s t a p e

pub Triple-modify :
    {S : Type 0} (P Q : S → Type 0) (f : S → S)
    → ((s : S) → P s → Q (f s))
    → Triple P (modify f) (λ _. Q)
Triple-modify P Q f h s t a p e = subst Q (ap (λ y. y.1) e) (h s p)

pub Triple-gets {ℓ} :
    {S : Type 0} {A : Type ℓ} (P : S → Type 0) (f : S → A) → Triple P (gets f) (λ _. P)
Triple-gets P f s t a p e = subst P (ap (λ y. y.1) e) p

module _ {ℓ κ} {S : Type 0} {A : Type ℓ} {B : Type κ} (P : S → Type 0) (R : A → S → Type 0)
    (Q : B → S → Type 0) where
  pub Triple->>= :
      (m : Exec S A) (f : A → Exec S B)
      → Triple P m R
      → ((a : A) → Triple (R a) (f a) Q)
      → Triple P (m >>= f) Q
  Triple->>= m f hm hf s t b p e =
      let (a, r, e') = >>=-eq-return m f s e in
      hf a (m s).1 t b (hm s (m s).1 a p (λ i. (r i, (m s).1))) e'

module _ {S : Type 0} (P Q : S → Type 0) where
  attempted :
      (o : Outcome (Unit {0})) (s t : S) (b : Bool)
      → (o ≡ return tt → Q s)
      → (let m : Exec S Bool = continue o (λ _. pure true) in
          let (r, s') = m s in handle r (λ _. pure false) s')
        ≡ (return b, t)
      → b ≡ true
      → Q t
  attempted (return tt) s t b h e done = subst Q (ap (λ y. y.1) e) (h refl)
  attempted (raise x) s t b h e done = cc
  attempted out_of_fuel s t b h e done = cc

  -- `try: act(); done = True; except: done = False`
  pub Triple-attempt :
      (act : Exec S (Unit {0}))
      → Triple P act (λ _. Q)
      → Triple P (try_except (act >> pure true) (λ _. pure false)) (λ b s. b ≡ true → Q s)
  Triple-attempt act h s t b p e =
      attempted (act s).0 (act s).1 t b (λ q. h s (act s).1 tt p (λ i. (q i, (act s).1))) e
