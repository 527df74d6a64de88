-- ===== src/Session/Attach.antt =====
-- Attaching and detaching sessions (session.py).
use blankie.Prelude.{List, [], ◌∷◌, ◌++◌, false, ◌≡◌, ◌≢◌, ◌⊎◌, arith}
use blankie.Exec.{Exec, return, out_of_fuel}
use blankie.Spec.{Spec, contains, remove, spec_eq_refl, contains-snoc}
use blankie.Session.{Daemon, specs_of, set_specs, attach, detach}

-- Updates leave the set of attached sessions alone.
abbrev pub KeepsSpecs : Exec Daemon (Unit {0}) → Type 0
KeepsSpecs update = (m : Daemon) → specs_of (update m).1 ≡ specs_of m

remove-snoc : (xs : List Spec) (s : Spec) → contains xs s ≡ false → remove (xs ++ s ∷ []) s ≡ xs
unfolding remove contains
remove-snoc [] s h = ground (arith, spec_eq_refl s)
remove-snoc (x ∷ xs) s h = ground (arith, remove-snoc xs s)

module _ (update : Exec Daemon (Unit {0})) (keeps : KeepsSpecs update) where
  -- If updates leave the set of attached sessions alone, and the session was not attached:
  -- `attach` adds it when it returns, and leaves the set of attached sessions as it was when it
  -- raises. (It has enough fuel.)
  pub attach-atomic :
      (s : Spec) (m : Daemon)
      → contains (specs_of m) s ≡ false
      → (attach update s m).0 ≢ out_of_fuel
      → ((attach update s m).0 ≡ return tt)
          × (specs_of (attach update s m).1 ≡ specs_of m ++ s ∷ [])
        ⊎ ((attach update s m).0 ≢ return tt) × (specs_of (attach update s m).1 ≡ specs_of m)
  unfolding attach
  attach-atomic s m fresh ends =
      let added = set_specs (specs_of m ++ s ∷ []) m in
      let after = (update added).1 in
      let undone = set_specs (remove (specs_of after) s) after in
      ground (
        arith,
        keeps added,
        keeps undone,
        contains-snoc (specs_of m) s s,
        spec_eq_refl s,
        remove-snoc (specs_of m) s fresh,
      )

  attach-added :
      (s : Spec) (m m' : Daemon)
      → contains (specs_of m) s ≡ false
      → attach update s m ≡ (return tt, m')
      → specs_of m' ≡ specs_of m ++ s ∷ []
  unfolding attach
  attach-added s m m' fresh h =
      let added = set_specs (specs_of m ++ s ∷ []) m in
      let after = (update added).1 in ground (arith, keeps added, fresh)

  -- If updates leave the set of attached sessions alone: detaching a session that `attach` has
  -- attached gives the set of attached sessions back, also if the update in `detach` raises.
  pub detach-attach :
      (s : Spec) (m m' : Daemon)
      → contains (specs_of m) s ≡ false
      → attach update s m ≡ (return tt, m')
      → specs_of (detach update s m').1 ≡ specs_of m
  unfolding detach
  detach-attach s m m' fresh h =
      let added = attach-added s m m' fresh h in
      ground (
        arith,
        added,
        keeps (set_specs (remove (specs_of m') s) m'),
        contains-snoc (specs_of m) s s,
        spec_eq_refl s,
        remove-snoc (specs_of m) s fresh,
      )
