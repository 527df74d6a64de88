-- ===== src/Loading/Dependencies.antt =====
-- `get_dependencies` of the modules (module.py, modules/logind.py, dbus.py, remote_sender.py), and
-- the list that `add` of `update` builds with them.
use blankie.Prelude.{
  ℕ, suc, List, [], ◌∷◌, ◌++◌, ◌≡◌, refl, ap, ◌∙◌, inl, inr, Bool-cases, if◌then◌else◌,
}
use blankie.Exec.{Exec, return, ◌>>=◌}
use blankie.Spec.{Spec, Values, nil, cons, str_eq}
use blankie.Manager.{Classes}
use blankie.Manager.Update.{collect, add}

-- `LogindModule.DBUS_SPEC` and `DBusModule.GLIB_SPEC`
abbrev pub dbus_spec : Spec
dbus_spec = record { name = "dbus"; params = nil }

abbrev pub glib_spec : Spec
glib_spec = record { name = "glib"; params = nil }

unfoldable pub logind_dependencies : List Spec
logind_dependencies = dbus_spec ∷ []

unfoldable pub dbus_dependencies : List Spec
dbus_dependencies = glib_spec ∷ []

-- `RemoteSenderModule`: its constructor takes the address of the bus.
unfoldable pub remote_sender_dependencies : Values → List Spec
remote_sender_dependencies nil = []
remote_sender_dependencies (cons bus_addr _) =
    record { name = "bus_client"; params = cons bus_addr nil } ∷ []

-- The method of the instance of a spec; all other classes inherit it from `Module`.
unfoldable pub get_dependencies : Spec → List Spec
unfolding logind_dependencies dbus_dependencies remote_sender_dependencies
get_dependencies s =
    if str_eq s.name "logind"
    then logind_dependencies
    else if str_eq s.name "dbus"
    then dbus_dependencies
    else if str_eq s.name "remote_sender"
    then remote_sender_dependencies s.params
    else []

-- A module behind its dependencies, and theirs.
abbrev behind : Values → List Spec
behind nil = []
behind (cons bus_addr _) = record { name = "bus_client"; params = cons bus_addr nil } ∷ []

abbrev pub with_dependencies : Spec → List Spec
with_dependencies s =
    if str_eq s.name "logind"
    then glib_spec ∷ dbus_spec ∷ s ∷ []
    else if str_eq s.name "dbus"
    then glib_spec ∷ s ∷ []
    else if str_eq s.name "remote_sender"
    then behind s.params ++ s ∷ []
    else s ∷ []

abbrev pub closure : List Spec → List Spec
closure [] = []
closure (s ∷ ss) = with_dependencies s ++ closure ss

then_return :
    {S A B : Type 0} (m : Exec S A) (f : A → Exec S B) (s : S) (a : A) (b : B)
    → (m s).0 ≡ return a
    → ((t : S) → (f a t).0 ≡ return b)
    → ((m >>= f) s).0 ≡ return b
then_return m f s a b e h = rw e (h (m s).1)

module _ {W : Type 0} (classes : Classes W)
    (gets : (s : Spec) (w : W) → (classes.get s w).0 ≡ return tt)
    (deps : (s : Spec) → classes.dependencies s ≡ get_dependencies s) where
  -- One module whose dependencies are collected as `before`.
  add-return :
      (bound : ℕ) (s : Spec) (before : List Spec) (w : W)
      → ((v : W) → (collect (add classes bound) (get_dependencies s) v).0 ≡ return before)
      → (add classes (suc bound) s w).0 ≡ return (before ++ s ∷ [])
  unfolding add
  add-return bound s before w h = then_return (classes.get s) _ w tt _ (gets s w) (λ v.
      then_return (collect (add classes bound) (classes.dependencies s)) _ v before _
        (ap (λ l. (collect (add classes bound) l v).0) (deps s) ∙ h v) (λ _. refl))

  -- A module with one dependency.
  collect-one :
      (bound : ℕ) (s : Spec) (l : List Spec) (w : W)
      → ((v : W) → (add classes bound s v).0 ≡ return l)
      → (collect (add classes bound) (s ∷ []) w).0 ≡ return (l ++ [])
  unfolding collect
  collect-one bound s l w h = then_return (add classes bound s) _ w l _ (h w) (λ v. refl)

  leaf :
      (bound : ℕ) (s : Spec) (w : W)
      → get_dependencies s ≡ []
      → (add classes (suc bound) s w).0 ≡ return (s ∷ [])
  unfolding collect
  leaf bound s w h = add-return bound s [] w (λ v. ap (λ l. (collect (add classes bound) l v).0) h)

  above :
      (bound : ℕ) (s d : Spec) (l : List Spec) (w : W)
      → get_dependencies s ≡ d ∷ []
      → ((v : W) → (add classes bound d v).0 ≡ return l)
      → (add classes (suc bound) s w).0 ≡ return ((l ++ []) ++ s ∷ [])
  above bound s d l w one h =
      add-return bound s (l ++ []) w
        (λ v. ap (λ ds. (collect (add classes bound) ds v).0) one ∙ collect-one bound d l v h)

  glib_alone :
      (bound : ℕ) (w : W) → (add classes (suc bound) glib_spec w).0 ≡ return (glib_spec ∷ [])
  unfolding get_dependencies
  glib_alone bound w = leaf bound glib_spec w refl

  dbus_behind :
      (bound : ℕ) (s : Spec) (w : W)
      → get_dependencies s ≡ dbus_dependencies
      → (add classes (suc (suc bound)) s w).0 ≡ return (glib_spec ∷ s ∷ [])
  unfolding dbus_dependencies
  dbus_behind bound s w h = above (suc bound) s _ _ w h (glib_alone bound)

  sender_behind :
      (bound : ℕ) (s : Spec) (params : Values) (w : W)
      → get_dependencies s ≡ remote_sender_dependencies params
      → (add classes (suc (suc bound)) s w).0 ≡ return (behind params ++ s ∷ [])
  unfolding remote_sender_dependencies get_dependencies
  sender_behind bound s nil w h = leaf (suc bound) s w h
  sender_behind bound s (cons bus_addr rest) w h =
      above (suc bound) s _ _ w h
        (λ v. leaf bound (record { name = "bus_client"; params = cons bus_addr nil }) v refl)

  add-with_dependencies :
      (bound : ℕ) (s : Spec) (w : W)
      → (add classes (suc (suc (suc bound))) s w).0 ≡ return (with_dependencies s)
  unfolding get_dependencies
  add-with_dependencies bound s w = elim (Bool-cases (str_eq s.name "logind")) [
    | inl l ↦ rw l (above (suc (suc bound)) s _ _ w (rw l refl) (λ v. dbus_behind bound _ v refl))
    | inr not_l ↦ elim (Bool-cases (str_eq s.name "dbus")) [
      | inl d ↦ rw (not_l, d) (dbus_behind (suc bound) s w (rw (not_l, d) refl))
      | inr not_d ↦ elim (Bool-cases (str_eq s.name "remote_sender")) [
        | inl r ↦
            rw (not_l, not_d, r)
              (sender_behind (suc bound) s s.params w (rw (not_l, not_d, r) refl))
        | inr not_r ↦
            rw (not_l, not_d, not_r) (leaf (suc (suc bound)) s w (rw (not_l, not_d, not_r) refl))
      ]
    ]
  ]

  -- A depth of three is enough for the modules' dependencies, and what `add` lists is known.
  pub collect-closure :
      (bound : ℕ) (ss : List Spec) (w : W)
      → (collect (add classes (suc (suc (suc bound)))) ss w).0 ≡ return (closure ss)
  unfolding collect
  collect-closure bound [] w = refl
  collect-closure bound (s ∷ ss) w =
      let visit = add classes (suc (suc (suc bound))) in
      then_return (visit s) _ w (with_dependencies s) _ (add-with_dependencies bound s w) (λ v.
        then_return (collect visit ss) _ v (closure ss) _ (collect-closure bound ss v) (λ _. refl))
