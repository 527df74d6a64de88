-- ===== src/Loading/Filed.antt =====
-- The dict `module_instances` (module.py), and whether its instances are of the modules that their
-- specs name.
use blankie.Prelude.{List, [], ◌∷◌, ◌≡◌, sym, ◌∙◌, ap, some, arith, inl, inr, Bool-cases}
use blankie.Spec.{Spec, spec_eq, spec_eq_iff, spec_eq_refl}
use blankie.Loading.{Instance, Loader, find, put, forget, rekey}

abbrev pub IsTyped : List (Spec × Instance) → Type 0
IsTyped [] = Unit {0}
IsTyped ((s, x) ∷ l) = (x.class.name ≡ some s.name) × IsTyped l

pub find-put : (l : List (Spec × Instance)) (s : Spec) (x : Instance) → find (put l s x) s ≡ some x
unfolding find put
find-put [] s x = ground (arith, spec_eq_refl s)
find-put ((t, y) ∷ l) s x = ground (arith, find-put l s x)

pub put-IsTyped :
    (l : List (Spec × Instance)) (s : Spec) (x : Instance)
    → IsTyped l
    → x.class.name ≡ some s.name
    → IsTyped (put l s x)
unfolding put
put-IsTyped [] s x h e = (e, tt)
put-IsTyped ((t, y) ∷ l) s x (a, h) e = elim (Bool-cases (spec_eq t s)) [
  | inl q ↦ rw q (ap (λ r. r) e ∙ ap (λ r. some r.name) (sym ((spec_eq_iff t s).0 q)), h)
  | inr q ↦ rw q (a, put-IsTyped l s x h e)
]

forget-IsTyped : (l : List (Spec × Instance)) (s : Spec) → IsTyped l → IsTyped (forget l s)
unfolding forget
forget-IsTyped [] s h = tt
forget-IsTyped ((t, y) ∷ l) s (a, h) = elim (Bool-cases (spec_eq t s)) [
  | inl q ↦ rw q (forget-IsTyped l s h)
  | inr q ↦ rw q (a, forget-IsTyped l s h)
]

pub find-IsTyped :
    (l : List (Spec × Instance)) (s : Spec) {x : Instance}
    → IsTyped l
    → find l s ≡ some x
    → x.class.name ≡ some s.name
unfolding find
find-IsTyped [] s h e = cc
find-IsTyped ((t, y) ∷ l) s {x} (a, h) e = elim (Bool-cases (spec_eq t s)) [
  | inl q ↦ ground (arith, a, (spec_eq_iff t s).0 q)
  | inr q ↦ find-IsTyped l s {x = x} h (ground arith)
]

-- A reconfiguration, which has compared the names, keeps the instances with their modules.
pub rekey-IsTyped :
    {W : Type 0} (r w : Spec) (x : Instance) (l : Loader W)
    → r.name ≡ w.name
    → find l.instances r ≡ some x
    → IsTyped l.instances
    → IsTyped (rekey r w x l).instances
unfolding rekey
rekey-IsTyped r w x l same filed h =
    put-IsTyped (forget l.instances r) w (record x { params = w.params })
      (forget-IsTyped l.instances r h) (find-IsTyped l.instances r h filed ∙ ap some same)
