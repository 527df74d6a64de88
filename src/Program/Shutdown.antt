-- ===== src/Program/Shutdown.antt =====
-- What runs after the daemon's shutdown (`shutdown` of daemon.py), with the program's modules and
-- selectors (module.py, session.py, __init__.py).
use Prim.Native.String.{compare, ◌∷◌ as ◌◂◌, ◌++◌ as ◌<>◌}
use Prim.Native.String.append
use Prim.Native.String.compare as compare_laws
use blankie.Prelude.{
  ℕ, String, List, [], ◌∷◌, Bool, false, map, ◌≡◌, refl, sym, ap, subst, ◌∙◌, inl, arith,
}
use blankie.Exec.{Exec, return, modify, >>=-eq-return}
use blankie.Exec.Triples.{Triple, Triple-modify}
use blankie.Spec.{Spec, contains, unique}
use blankie.World.{
  World, Selector, core, configuration, session_set, launcher, lock_state, shutting_down,
}
use blankie.Manager.{Selection, Classes}
use blankie.Manager.Update.{collect, add, select, run_selectors, update}
use blankie.Manager.Promise.{Chooses}
use blankie.Manager.Promise.Whole.{update-Delivered}
use blankie.Config.Keeps.{Untouched}
use blankie.Session.{Daemon}
use blankie.Selectors.{key_lt, is_lt, run_selector, sort_keys, selectors_of}
use blankie.Selectors.Chosen.{ends, run_selector-Growing}
use blankie.Selectors.Asked.{Untouched-refl}
use blankie.Selectors.Final.{
  IsEarly, AllEarly, IsFinal, sort_keys-last, register-AllEarly, unregister-AllEarly,
  register-IsFinal,
}
use blankie.Lifecycle.{shutdown, install_shutdown, remove_pid_file}
use blankie.Lifecycle.Shutdown.{run_selectors-last, map-last, none_contained}
use blankie.Program.Launchers.{
  selector_key, selector_key-ne, register-Registered, unregister-Registered, IsSturdy,
}
use blankie.Program.Modules.{Rest, program}
use blankie.Program.Kept.{RestKeeps, IsFreed, freed-KeptByUnlock, program-KeepsIf}

abbrev last_key : String
last_key = "95-shutdown"

module _ (r t n : String) where
  abbrev tail : String
  tail = "0-" <> r <> "-" <> t <> "-" <> n

  selector_key-unfold : selector_key r t n ≡ "4" ◂ tail
  selector_key-unfold = append.cons "4" "0-" (r <> "-" <> t <> "-" <> n)

  -- A launcher's selector is called before that of the shutdown.
  selector_key-IsEarly : (g : Selector) → IsEarly last_key shutting_down (selector_key r t n) g
  unfolding key_lt
  selector_key-IsEarly g = record {
    not_after =
        ap (λ k. is_lt (compare last_key k)) selector_key-unfold
        ∙ ap is_lt (compare_laws.cons-cons "9" "4" "5-shutdown" tail);
    early = inl (
        ap (λ k. is_lt (compare k last_key)) selector_key-unfold
        ∙ ap is_lt (compare_laws.cons-cons "4" "9" tail "5-shutdown"));
  }

-- The shutdown's selector is registered, and the keys of all others are smaller.
abbrev pub IsEnding : World → Type 0
IsEnding w = IsFinal last_key shutting_down w.selectors

IsEnding-IsSturdy : IsSturdy IsEnding
IsEnding-IsSturdy = record {
  locks = λ w p. p;
  registers = λ r t n per_session_name args w p. record {
    all_early =
        register-AllEarly last_key shutting_down (selector_key r t n) _ w.selectors
          (selector_key-IsEarly r t n _) p.all_early;
    registered =
        register-Registered last_key shutting_down (selector_key r t n)
          (selector_key-ne r t n last_key refl) _ w.selectors p.registered;
  };
  unregisters = λ r t n w p. record {
    all_early =
        unregister-AllEarly last_key shutting_down (selector_key r t n) w.selectors p.all_early;
    registered =
        unregister-Registered last_key shutting_down (selector_key r t n)
          (selector_key-ne r t n last_key refl) w.selectors p.registered;
  };
}

module _ (is_systemd : Bool) (w : World) where
  abbrev Untouches : Exec (Selection World) (Unit {0}) → Type 0
  Untouches act = Triple (λ x. Untouched w x.world) act (λ _ x. Untouched w x.world)

  alive-Untouches :
      (f : Selector) (running : List Spec)
      → ends f ≡ false
      → Untouches (run_selector is_systemd f running)
  unfolding contains
  alive-Untouches f running alive x y a same e =
      let grown =
        run_selector-Growing w [] is_systemd f running alive x y a
          (record { still = λ s h. cc; untouched = same }) e in
      grown.untouched

  run_selector-Untouches :
      (f : Selector) (running : List Spec) → Untouches (run_selector is_systemd f running)
  unfolding run_selector
  run_selector-Untouches core running = alive-Untouches core running refl
  run_selector-Untouches configuration running = alive-Untouches configuration running refl
  run_selector-Untouches session_set running = alive-Untouches session_set running refl
  run_selector-Untouches (launcher t n args) running =
      alive-Untouches (launcher t n args) running refl
  run_selector-Untouches lock_state running = alive-Untouches lock_state running refl
  run_selector-Untouches shutting_down running = Triple-modify _ _ _ (λ x same. same)

  run_selectors-Untouches :
      (l : List (String × Selector)) (m n : Daemon)
      → Untouched w m.world
      → run_selectors (map (λ e. run_selector is_systemd e.1) l) m ≡ (return tt, n)
      → Untouched w n.world
  unfolding run_selectors
  run_selectors-Untouches [] m n same e = subst (λ k. Untouched w k.world) (ap (λ p. p.1) e) same
  run_selectors-Untouches ((k, f) ∷ l) m n same e =
      let here = run_selector is_systemd f in
      let later = run_selectors (map (λ e. run_selector is_systemd e.1) l) in
      let (_, q, e') = >>=-eq-return (select here) (λ _. later) m e in
      let y = (here m.running (record { chosen = m.wanted; world = m.world })).1 in
      run_selectors-Untouches l (select here m).1 n
        (run_selector-Untouches f m.running _ y tt same (λ i. (q i, y))) e'

collect-nil :
    {W : Type 0} (visit : Spec → Exec W (List Spec)) (ws ds : List Spec) (v w : W)
    → ws ≡ []
    → collect visit ws v ≡ (return ds, w)
    → (ds ≡ []) × (v ≡ w)
unfolding collect
collect-nil visit [] ds v w h e = (ground arith, ap (λ p. p.1) e)
collect-nil visit (x ∷ ws) ds v w h e = cc

abbrev IsNothing : List Spec → Type 0
IsNothing ws = ws ≡ []

IsEnding-Chooses :
    (is_systemd : Bool) (classes : Classes World)
    → ((w : World) → classes.selectors w ≡ selectors_of is_systemd w)
    → Chooses IsEnding IsNothing classes
unfolding selectors_of unique
IsEnding-Chooses is_systemd classes sel m n bound deps w ending called collected =
    let run = λ (e : String × Selector). run_selector is_systemd e.1 in
    let m0 = record m { wanted = [] } in
    let (l, sorted) =
      sort_keys-last last_key shutting_down m.world.selectors ending.all_early ending.registered in
    let called' = subst (λ s. run_selectors s m0 ≡ (return tt, n)) (sel m.world) called in
    let nothing =
      run_selectors-last (map run l) (run_selector is_systemd shutting_down) m0 n (λ rs x. refl)
        (subst (λ s. run_selectors s m0 ≡ (return tt, n))
          (ap (map run) sorted ∙ map-last run l (last_key, shutting_down)) called') in
    let (no_deps, there) =
      collect-nil (add classes bound) n.wanted deps n.world w nothing collected in
    let same =
      run_selectors-Untouches is_systemd m.world (sort_keys m.world.selectors) m0 n
        (Untouched-refl m.world) called' in
    (
      subst IsEnding there (subst (IsFinal last_key shutting_down) (sym same.selectors) ending),
      ap unique no_deps,
    )

IsEnding-IsFreed : IsFreed IsEnding IsNothing
IsEnding-IsFreed = record { frees = λ w p. p; reads = λ w p. p; notifies = λ w p. p }

module _ (rest : Rest) (is_systemd : Bool) where
  -- With the program's modules and selectors, where the keys of the registered selectors are smaller
  -- than "95-shutdown", and the modules that do not call `update` keep it so: when `shutdown`
  -- returns, no module is running, and the PID file is gone.
  pub shutdown-stops :
      RestKeeps IsEnding rest
      → (fuel : ℕ) (m n : Daemon) → AllEarly last_key shutting_down m.world.selectors
      → shutdown (update (program rest is_systemd) fuel) m ≡ (return tt, n)
      → (n.running ≡ []) × (n.world.pid_file ≡ false)
  unfolding shutdown program contains key_lt
  shutdown-stops keeps fuel m n early e =
      let u = update (program rest is_systemd) fuel in
      let m1 = install_shutdown m in
      let (_, q, e') = >>=-eq-return u (λ _. modify remove_pid_file) m1 e in
      let d =
        update-Delivered IsEnding IsNothing (program rest is_systemd)
          (program-KeepsIf IsEnding IsNothing IsEnding-IsSturdy
            (freed-KeptByUnlock IsEnding IsNothing IsEnding-IsFreed) rest keeps is_systemd)
          (λ v h. IsEnding-Chooses is_systemd (program rest is_systemd v) (λ w. refl)) fuel m1
          (u m1).1 tt (register-IsFinal last_key shutting_down m.world.selectors refl early)
          (λ i. (q i, (u m1).1)) in
      (
        ap (λ y. y.1.running) (sym e')
            ∙ none_contained (u m1).1.running (λ s. d.1 s ∙ ap (λ l. contains l s) d.0.1),
        ap (λ y. y.1.world.pid_file) (sym e'),
      )
