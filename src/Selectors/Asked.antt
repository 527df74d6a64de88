-- ===== src/Selectors/Asked.antt =====
-- What a registered selector asks for is in the list of the chosen modules when `update` (module.py)
-- has called all selectors, unless one of them empties the list.
use blankie.Prelude.{Bool, false, subst, String, List, [], ◌∷◌, true, ◌≡◌, refl, ap, inl, inr, map}
use blankie.Exec.{Exec, return, >>=-eq-return}
use blankie.Spec.{Spec, contains}
use blankie.World.{World, Selector}
use blankie.Manager.{Selection}
use blankie.Manager.Update.{select, run_selectors}
use blankie.Config.Keeps.{Untouched}
use blankie.Session.{Daemon}
use blankie.Selectors.{run_selector, selectors_of, sort_keys}
use blankie.Selectors.Chosen.{
  Registered, ends, NoneEnds, sort_keys-Registered, sort_keys-NoneEnds, Grows, run_selector-Growing,
}

pub Untouched-refl : (w : World) → Untouched w w
Untouched-refl w = record { locked = refl; selectors = refl; specs = refl; config = refl }

abbrev selection : Daemon → Selection World
selection m = record { chosen = m.wanted; world = m.world }

module _ (is_systemd : Bool) where
  abbrev calls : List (String × Selector) → List (List Spec → Exec (Selection World) (Unit {0}))
  calls = map (λ e. run_selector is_systemd e.1)

  select-Grows :
      (w : World) (chosen : List Spec) (f : Selector) (m : Daemon)
      → ends f ≡ false
      → Grows w chosen (selection m)
      → (select (run_selector is_systemd f) m).0 ≡ return tt
      → Grows w chosen (selection (select (run_selector is_systemd f) m).1)
  select-Grows w chosen f m alive g e =
      let y = (run_selector is_systemd f m.running (selection m)).1 in
      run_selector-Growing w chosen is_systemd f m.running alive (selection m) y tt g
        (λ i. (e i, y))

  run_selectors-Grows :
      (w : World) (chosen : List Spec) (l : List (String × Selector)) (m n : Daemon)
      → NoneEnds l
      → Grows w chosen (selection m)
      → run_selectors (calls l) m ≡ (return tt, n)
      → Grows w chosen (selection n)
  unfolding run_selectors
  run_selectors-Grows w chosen [] m n alive g e =
      subst (λ x. Grows w chosen (selection x)) (ap (λ p. p.1) e) g
  run_selectors-Grows w chosen ((k, f) ∷ l) m n (alive, more) g e =
      let here = run_selector is_systemd f in
      let (_, q, e') = >>=-eq-return (select here) (λ _. run_selectors (calls l)) m e in
      run_selectors-Grows w chosen l (select here m).1 n more (select-Grows w chosen f m alive g q)
        e'

  -- Where the world agrees with `w` on the lock state, the selectors, the sessions and the
  -- configuration, the selector asks for `s`.
  abbrev pub Asks : World → Selector → Spec → Type 0
  Asks w f s =
      (running : List Spec) (x y : Selection World)
      → Untouched w x.world
      → run_selector is_systemd f running x ≡ (return tt, y)
      → contains y.chosen s ≡ true

  run_selectors-Asks :
      (w : World) (k : String) (f : Selector) (s : Spec) (l : List (String × Selector))
      (m n : Daemon)
      → Asks w f s
      → Registered k f l
      → NoneEnds l
      → Untouched w m.world
      → run_selectors (calls l) m ≡ (return tt, n)
      → contains n.wanted s ≡ true
  unfolding run_selectors
  run_selectors-Asks w k f s [] m n asks found alive same e = absurd found
  run_selectors-Asks w k f s ((j, g) ∷ l) m n asks found (alive, more) same e =
      let here = run_selector is_systemd g in
      let (_, q, e') = >>=-eq-return (select here) (λ _. run_selectors (calls l)) m e in
      let m' = (select here m).1 in
      let grown =
        select-Grows w m.wanted g m alive (record { still = λ _ h. h; untouched = same }) q in
      elim found [
        | inl (_, same_selector) ↦
            let y = selection m' in
            (run_selectors-Grows w m'.wanted l m' n more
                (record { still = λ _ h. h; untouched = grown.untouched }) e').still
              s
              (asks m.running (selection m) y same (
                subst (λ h. run_selector is_systemd h m.running (selection m) ≡ (return tt, y))
                  same_selector (λ i. (q i, y))))
        | inr later ↦ run_selectors-Asks w k f s l m' n asks later more grown.untouched e'
      ]

  -- When all selectors have been called, what the selector asks for has been chosen.
  pub selectors_of-Asks :
      (k : String) (f : Selector) (s : Spec) (m n : Daemon)
      → Asks m.world f s
      → Registered k f m.world.selectors
      → NoneEnds m.world.selectors
      → run_selectors (selectors_of is_systemd m.world) (record m { wanted = [] }) ≡ (return tt, n)
      → contains n.wanted s ≡ true
  unfolding selectors_of
  selectors_of-Asks k f s m n asks found alive e =
      run_selectors-Asks m.world k f s (sort_keys m.world.selectors) (record m { wanted = [] }) n
        asks (sort_keys-Registered k f m.world.selectors found)
        (sort_keys-NoneEnds m.world.selectors alive) (Untouched-refl m.world) e

  -- And the lock state, the selectors, the sessions and the configuration are as before.
  pub selectors_of-Untouched :
      (m n : Daemon)
      → NoneEnds m.world.selectors
      → run_selectors (selectors_of is_systemd m.world) (record m { wanted = [] }) ≡ (return tt, n)
      → Untouched m.world n.world
  unfolding selectors_of
  selectors_of-Untouched m n alive e =
      (run_selectors-Grows m.world [] (sort_keys m.world.selectors) (record m { wanted = [] }) n
        (sort_keys-NoneEnds m.world.selectors alive)
        (record { still = λ _ h. h; untouched = Untouched-refl m.world }) e).untouched
