-- ===== src/Program/Launchers.antt =====
-- Launchers (`PerSessionModuleLauncher` of session.py) register and remove their own selector: what
-- that leaves of the other selectors.
use Prim.Native.String.{◌++◌ as ◌<>◌}
use text.Mathlib.Text.{starts_with}
use text.Mathlib.TextPositions.{starts_with-append}
use blankie.Prelude.{
  String, subst, List, [], ◌∷◌, true, false, ◌≡◌, ◌≢◌, refl, sym, ◌∙◌, inl, inr, Bool-cases,
}
use blankie.Spec.{Values, str_eq, str_eq-eq}
use blankie.World.{World, Selector, launcher}
use blankie.Selectors.{register, unregister_selector}
use blankie.Selectors.Chosen.{Registered, ends, NoneEnds}
use blankie.Program.{Demand, AllRegistered, Ready}

module _ (k : String) (f : Selector) (j : String) (other : j ≢ k) where
  pub register-Registered :
      (g : Selector) (l : List (String × Selector))
      → Registered k f l
      → Registered k f (register j g l)
  unfolding register
  register-Registered g [] h = absurd h
  register-Registered g ((i, e) ∷ l) h = elim (Bool-cases (str_eq i j)) [
    | inl b ↦ rw b (replaced h (str_eq-eq b))
    | inr b ↦ rw b (kept h (register-Registered g l))
  ]
    where
      replaced : Registered k f ((i, e) ∷ l) → i ≡ j → Registered k f ((i, g) ∷ l)
      replaced (inl (here, _)) same = absurd (other (sym same ∙ here))
      replaced (inr there) same = inr there

      kept :
          Registered k f ((i, e) ∷ l)
          → (Registered k f l → Registered k f (register j g l))
          → Registered k f ((i, e) ∷ register j g l)
      kept (inl here) ih = inl here
      kept (inr there) ih = inr (ih there)

  pub unregister-Registered :
      (l : List (String × Selector)) → Registered k f l → Registered k f (unregister_selector j l)
  unfolding unregister_selector
  unregister-Registered [] h = h
  unregister-Registered ((i, e) ∷ l) h = elim (Bool-cases (str_eq i j)) [
    | inl b ↦ rw b (removed h (str_eq-eq b))
    | inr b ↦ rw b (kept h (unregister-Registered l))
  ]
    where
      removed : Registered k f ((i, e) ∷ l) → i ≡ j → Registered k f l
      removed (inl (here, _)) same = absurd (other (sym same ∙ here))
      removed (inr there) same = there

      kept :
          Registered k f ((i, e) ∷ l)
          → (Registered k f l → Registered k f (unregister_selector j l))
          → Registered k f ((i, e) ∷ unregister_selector j l)
      kept (inl here) ih = inl here
      kept (inr there) ih = inr (ih there)

-- `per_session_selector_key`; `repr` gives the text of an object.
abbrev pub selector_key : (repr session_type name : String) → String
selector_key repr session_type name = "40-" <> repr <> "-" <> session_type <> "-" <> name

-- A launcher's key is no other selector's.
pub selector_key-ne : (r t n k : String) → starts_with k "40-" ≡ false → selector_key r t n ≢ k
selector_key-ne r t n k h same =
    let is_prefix = starts_with-append "40-" (r <> "-" <> t <> "-" <> n) in
    let starts = subst (λ x. starts_with x "40-" ≡ true) same is_prefix in cc

register-NoneEnds :
    (j : String) (g : Selector) (l : List (String × Selector))
    → ends g ≡ false
    → NoneEnds l
    → NoneEnds (register j g l)
unfolding register
register-NoneEnds j g [] h hs = (h, hs)
register-NoneEnds j g ((i, e) ∷ l) h (h', hs) = elim (Bool-cases (str_eq i j)) [
  | inl b ↦ rw b (h, hs)
  | inr b ↦ rw b (h', register-NoneEnds j g l h hs)
]

unregister-NoneEnds :
    (j : String) (l : List (String × Selector)) → NoneEnds l → NoneEnds (unregister_selector j l)
unfolding unregister_selector
unregister-NoneEnds j [] hs = hs
unregister-NoneEnds j ((i, e) ∷ l) (h', hs) = elim (Bool-cases (str_eq i j)) [
  | inl b ↦ rw b hs
  | inr b ↦ rw b (h', unregister-NoneEnds j l hs)
]

-- The keys of the selectors that are asked for are no launcher's.
abbrev pub NoneLaunch : List Demand → Type 0
NoneLaunch [] = Unit
NoneLaunch (d ∷ ds) = (starts_with d.key "40-" ≡ false) × NoneLaunch ds

module _ (repr type name : String) where
  abbrev key : String
  key = selector_key repr type name

  register-AllRegistered :
      (g : Selector) (ds : List Demand) (l : List (String × Selector))
      → NoneLaunch ds
      → AllRegistered ds l
      → AllRegistered ds (register key g l)
  register-AllRegistered g [] l none h = tt
  register-AllRegistered g (d ∷ ds) l (other, none) (h, hs) = (
    register-Registered d.key d.selector key (selector_key-ne repr type name d.key other) g l h,
    register-AllRegistered g ds l none hs,
  )

  unregister-AllRegistered :
      (ds : List Demand) (l : List (String × Selector))
      → NoneLaunch ds
      → AllRegistered ds l
      → AllRegistered ds (unregister_selector key l)
  unregister-AllRegistered [] l none h = tt
  unregister-AllRegistered (d ∷ ds) l (other, none) (h, hs) = (
    unregister-Registered d.key d.selector key (selector_key-ne repr type name d.key other) l h,
    unregister-AllRegistered ds l none hs,
  )

-- `Q` holds whatever launchers register, and when the daemon is locked.
pub record IsRobust (Q : World → Type 0) : Type 0 where
  pub registers : (w : World) (l : List (String × Selector)) → Q w → Q (record w { selectors = l })
  pub locks : (w : World) → Q w → Q (record w { locked = true })

-- What the program's modules do to the world before they call `update` keeps `I`.
pub record IsSturdy (I : World → Type 0) : Type 0 where
  pub locks : (w : World) → I w → I (record w { locked = true })
  pub registers :
      (r t n per_session_name : String) (args : Values) (w : World)
      → I w
      → (let g = launcher t per_session_name args in
          I (record w { selectors = register (selector_key r t n) g w.selectors }))
  pub unregisters :
      (r t n : String) (w : World)
      → I w
      → I (record w { selectors = unregister_selector (selector_key r t n) w.selectors })

pub Ready-IsSturdy :
    (Q : World → Type 0) (ds : List Demand) → IsRobust Q → NoneLaunch ds → IsSturdy (Ready Q ds)
Ready-IsSturdy Q ds robust none = record {
  locks =
      λ w p. record { fact = robust.locks w p.fact; registered = p.registered; alive = p.alive };
  registers = λ r t n per_session_name args w p. record {
    fact = robust.registers w _ p.fact;
    registered = register-AllRegistered r t n _ ds w.selectors none p.registered;
    alive = register-NoneEnds (selector_key r t n) _ w.selectors refl p.alive;
  };
  unregisters = λ r t n w p. record {
    fact = robust.registers w _ p.fact;
    registered = unregister-AllRegistered r t n ds w.selectors none p.registered;
    alive = unregister-NoneEnds (selector_key r t n) w.selectors p.alive;
  };
}
