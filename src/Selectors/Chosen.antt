-- ===== src/Selectors/Chosen.antt =====
-- What a call of a selector leaves of the modules that are chosen already, and of the world
-- (config.py, session.py, __init__.py).
use blankie.Prelude.{
  String, List, [], ◌∷◌, ◌++◌, Bool, true, false, ◌≡◌, ap, subst, arith, ◌⊎◌, inl, inr, Bool-cases,
  if◌then◌else◌,
}
use blankie.Exec.{Exec, return}
use blankie.Exec.Triples.{Triple, Triple-modify, Triple-gets, Triple->>=}
use blankie.Spec.{Spec, contains, contains-append}
use blankie.World.{
  World, Selector, core, configuration, session_set, launcher, lock_state, shutting_down,
}
use blankie.Manager.{Selection}
use blankie.Config.{config_selector, evaluate, idle_time, get_schedule, first_timeout, timer_for}
use blankie.Config.Keeps.{Untouched, evaluate-Untouched, idle_time-Untouched}
use blankie.Session.{session_selector, per_session}
use blankie.Selectors.{plain, run_selector, core_modules, insert_key, sort_keys, key_lt}

-- The selector stands in the registry under this key.
abbrev pub Registered : String → Selector → List (String × Selector) → Type 0
Registered k f [] = ⊥
Registered k f ((j, g) ∷ l) = ((j ≡ k) × (g ≡ f)) ⊎ Registered k f l

abbrev pub ends : Selector → Bool
ends shutting_down = true
ends _ = false

-- The daemon is not shutting down.
abbrev pub NoneEnds : List (String × Selector) → Type 0
NoneEnds [] = Unit
NoneEnds ((j, g) ∷ l) = (ends g ≡ false) × NoneEnds l

insert_key-Registered :
    (k j : String) (f g : Selector) (l : List (String × Selector))
    → ((j ≡ k) × (g ≡ f)) ⊎ Registered k f l
    → Registered k f (insert_key j g l)
unfolding insert_key
insert_key-Registered k j f g [] h = h
insert_key-Registered k j f g ((i, e) ∷ l) h = elim (Bool-cases (key_lt j i)) [
  | inl b ↦ rw b h
  | inr b ↦ rw b (later h (insert_key-Registered k j f g l))
]
  where
    later :
        ((j ≡ k) × (g ≡ f)) ⊎ Registered k f ((i, e) ∷ l)
        → (((j ≡ k) × (g ≡ f)) ⊎ Registered k f l → Registered k f (insert_key j g l))
        → Registered k f ((i, e) ∷ insert_key j g l)
    later (inl here) ih = inr (ih (inl here))
    later (inr (inl first)) ih = inl first
    later (inr (inr rest)) ih = inr (ih (inr rest))

insert_key-NoneEnds :
    (j : String) (g : Selector) (l : List (String × Selector))
    → ends g ≡ false
    → NoneEnds l
    → NoneEnds (insert_key j g l)
unfolding insert_key
insert_key-NoneEnds j g [] h hs = (h, hs)
insert_key-NoneEnds j g ((i, e) ∷ l) h (h', hs) = elim (Bool-cases (key_lt j i)) [
  | inl b ↦ rw b (h, (h', hs))
  | inr b ↦ rw b (h', insert_key-NoneEnds j g l h hs)
]

pub sort_keys-Registered :
    (k : String) (f : Selector) (l : List (String × Selector))
    → Registered k f l
    → Registered k f (sort_keys l)
unfolding sort_keys
sort_keys-Registered k f [] h = h
sort_keys-Registered k f ((j, g) ∷ l) (inl here) = insert_key-Registered k j f g _ (inl here)
sort_keys-Registered k f ((j, g) ∷ l) (inr h) =
    insert_key-Registered k j f g _ (inr (sort_keys-Registered k f l h))

pub sort_keys-NoneEnds : (l : List (String × Selector)) → NoneEnds l → NoneEnds (sort_keys l)
unfolding sort_keys
sort_keys-NoneEnds [] h = h
sort_keys-NoneEnds ((j, g) ∷ l) (h, hs) = insert_key-NoneEnds j g _ h (sort_keys-NoneEnds l hs)

-- The chosen modules of `x` are still chosen, and the world is as it was at `w`.
pub record Grows (w : World) (chosen : List Spec) (y : Selection World) : Type 0 where
  pub still : (s : Spec) → contains chosen s ≡ true → contains y.chosen s ≡ true
  pub untouched : Untouched w y.world

module _ (w : World) (chosen : List Spec) where
  Grows-ask :
      (specs : List Spec) (x : Selection World)
      → Grows w chosen x
      → Grows w chosen (record x { chosen = x.chosen ++ specs })
  Grows-ask specs x g = record {
    still = λ s h. ground (arith, contains-append x.chosen specs s, g.still s h);
    untouched = g.untouched;
  }

  abbrev pub Growing : {A : Type 0} → Exec (Selection World) A → Type 0
  Growing act = Triple (Grows w chosen) act (λ _. Grows w chosen)

  Growing-ask :
      (specs : Selection World → List Spec)
      → Growing (λ x. (return tt, record x { chosen = x.chosen ++ specs x }))
  Growing-ask specs =
      Triple-modify (Grows w chosen) (Grows w chosen) _ (λ x g. Grows-ask (specs x) x g)

  Growing-selection :
      {A : Type 0} (act : Exec World A)
      → ((v : World) → Untouched w v → Untouched w (act v).1)
      → Growing (λ x. let (r, v) = act x.world in (r, record x { world = v }))
  Growing-selection act keeps x y a g e =
      let v = (act x.world).1 in
      subst (Grows w chosen) (ap (λ p. p.1) e)
        (record { still = g.still; untouched = keeps x.world g.untouched })

  config_selector-Growing : Growing config_selector
  unfolding config_selector
  config_selector-Growing =
      let P = Grows w chosen in
      Triple->>= P (λ _. P) _ _ _ (Growing-selection evaluate (evaluate-Untouched w))
        (λ _.
          Triple->>= P (λ _. P) _ _ _ (Triple-gets P (λ x. x.world.idle_timers))
            (λ timers.
              Triple->>= P (λ _. P) _ _ _
                (Triple-modify P P _ (Grows-ask (first_timeout (get_schedule timers))))
                (λ _.
                  Triple->>= P (λ _. P) _ _ _ (Growing-selection idle_time (idle_time-Untouched w))
                    (λ idle.
                      Triple->>= P (λ _. P) _ _ _
                        (Triple-modify P P _ (Grows-ask (timer_for (get_schedule timers) idle)))
                        (λ _.
                          Triple->>= P (λ _. P) _ _ _ (Triple-gets P (λ x. x.world.modules))
                            (λ modules. Triple-modify P P _ (Grows-ask modules)))))))

  pub run_selector-Growing :
      (is_systemd : Bool) (f : Selector) (running : List Spec)
      → ends f ≡ false
      → Growing (run_selector is_systemd f running)
  unfolding run_selector session_selector
  run_selector-Growing is_systemd core running h = Growing-ask (λ _. core_modules is_systemd)
  run_selector-Growing is_systemd configuration running h = config_selector-Growing
  run_selector-Growing is_systemd session_set running h =
      Growing-ask (λ x. x.world.sensors.session_specs)
  run_selector-Growing is_systemd (launcher type name args) running h =
      Growing-ask (λ _. per_session type name args running)
  run_selector-Growing is_systemd lock_state running h =
      Growing-ask (λ x. if x.world.locked then plain "lock" ∷ [] else [])
  run_selector-Growing is_systemd shutting_down running h = cc
