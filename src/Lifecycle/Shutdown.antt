-- ===== src/Lifecycle/Shutdown.antt =====
-- What the daemon's shutdown does to the running modules (daemon.py, module.py).
use blankie.Prelude.{
  ℕ, String, List, [], ◌∷◌, ◌++◌, Bool, true, false, ◌≡◌, ◌≢◌, refl, subst, sym, ap, ◌∙◌, Option,
  some, none, map, arith,
}
use blankie.Exec.{
  Exec, return, out_of_fuel, >>=-eq-return, >>=_ends, try_except-ignore, modify, pure, ◌>>◌,
}
use blankie.Spec.{Spec, contains, spec_eq_refl, unique}
use blankie.World.{World, Selector, shutting_down}
use blankie.EventLoop.{EventLoop}
use blankie.Session.{Daemon}
use blankie.Manager.{
  Manager, on_world, Classes, Selection, first_missing, start_stop_modules, rounds, report,
}
use blankie.Manager.Update.{collect, add, select, run_selectors, apply_selection, synchronize}
use blankie.Manager.Operations.{
  Operation, reconfigured, stopped, failed, started, do_one_module-Operation,
}
use blankie.Manager.Rounds.{Rule, rounds_ind}
use blankie.Manager.Contract.{do_one_module-wanted, report-eq-return, start_stop_modules-same}
use blankie.Selectors.{selectors_of, run_selector}
use blankie.Selectors.Last.{AllBelow, sort_keys-register}
use blankie.Lifecycle.{shutdown, stop, install_shutdown, remove_pid_file}

shutdown_ends :
    (update : Exec Daemon (Unit {0})) (m : Daemon)
    → ((n : Daemon) → (update n).0 ≢ out_of_fuel)
    → (shutdown update m).0 ≢ out_of_fuel
unfolding shutdown
shutdown_ends update m h =
    >>=_ends update (λ _. modify remove_pid_file) (install_shutdown m) (h _) (λ a e p. cc)

-- Whatever `update` does, also if it raises (it only has enough fuel): the loop is asked to stop,
-- and `stop` returns.
pub stop_lem :
    {T : Type 0} (update : Exec Daemon (Unit {0})) (x : EventLoop T Daemon)
    → ((m : Daemon) → (update m).0 ≢ out_of_fuel)
    → ((stop update x).1.stopping ≡ true) × ((stop update x).0 ≡ return tt)
unfolding stop
stop_lem update x h =
    (refl, try_except-ignore (shutdown update) x.world (shutdown_ends update x.world h))

abbrev pub Clears : {W : Type 0} → (List Spec → Exec (Selection W) (Unit {0})) → Type 0
Clears {W} f = (rs : List Spec) (x : Selection W) → (f rs x).1.chosen ≡ []

pub run_selectors-last :
    {W : Type 0} (l : List (List Spec → Exec (Selection W) (Unit {0})))
    (f : List Spec → Exec (Selection W) (Unit {0})) (m n : Manager W)
    → Clears f
    → run_selectors (l ++ f ∷ []) m ≡ (return tt, n)
    → n.wanted ≡ []
unfolding run_selectors
run_selectors-last [] f m n c h =
    let (_, e, p) = >>=-eq-return (select f) (λ _. pure tt) m h in
    ap (λ x. x.1.wanted) (sym p) ∙ c m.running (record { chosen = m.wanted; world = m.world })
run_selectors-last (g ∷ l) f m n c h =
    let (_, e, p) = >>=-eq-return (select g) (λ _. run_selectors (l ++ f ∷ [])) m h in
    run_selectors-last l f (select g m).1 n c p

-- Once nothing is wanted, stopping modules does not change that.
pub record KeepsNothing {W : Type 0} (classes : Classes W) : Type 0 where
  pub stop_keeps : (s : Spec) (m : Manager W) → m.wanted ≡ [] → (classes.stop s m).1.wanted ≡ []

module _ {W : Type 0} (classes : Classes W) (keeps : KeepsNothing classes) where
  Operation-keeps :
      (errors errors' : List Spec) (m n : Manager W)
      → m.wanted ≡ []
      → Operation classes errors errors' m.running m.wanted n
      → n.wanted ≡ []
  unfolding first_missing
  Operation-keeps errors errors' m n h (reconfigured i r w pair e running wanted) = wanted ∙ h
  Operation-keeps errors errors' m n h (stopped i r x hit e step) =
      ap (λ y. y.1.wanted) (sym step) ∙ keeps.stop_keeps r (_) h
  Operation-keeps errors errors' m n h (failed i r x err k hit e step same) =
      ap (λ y. y.wanted) same ∙ ap (λ y. y.1.wanted) (sym step) ∙ keeps.stop_keeps r (_) h
  Operation-keeps errors errors' m n h (started w x k no_stop hit e step same) =
      absurd (none≢some w (ap (first_missing m.running) (sym h) ∙ hit))
    where
      none≢some : (w : Spec) → ◌≡◌ {A = Option Spec} none (some w) → ⊥
      none≢some w p = cc

  rounds-nothing :
      (fuel : ℕ) (m n : Manager W) (errors final : List Spec)
      → m.wanted ≡ []
      → rounds classes fuel errors m ≡ (return final, n)
      → n.wanted ≡ []
  rounds-nothing fuel m n errors final h e =
      rounds_ind classes (λ _ k. k.wanted ≡ []) (λ _ k. k.wanted ≡ []) rule fuel errors final m n h
        e
    where
      rule : Rule classes (λ _ k. k.wanted ≡ []) (λ _ k. k.wanted ≡ [])
      rule = record {
        keep = λ es es' k l h e.
            Operation-keeps es es' k l h (do_one_module-Operation classes es es' k l e);
        finish = λ es k l h e. do_one_module-wanted classes es k l e ∙ h;
      }

pub none_contained : (l : List Spec) → ((s : Spec) → contains l s ≡ false) → l ≡ []
unfolding contains
none_contained [] h = refl
none_contained (a ∷ l) h = ground (arith, h a, spec_eq_refl a)

module _ {W : Type 0} (classes : Classes W) (keeps : KeepsNothing classes) where
  start_stop_modules-nothing :
      (fuel : ℕ) (m n : Manager W)
      → m.wanted ≡ []
      → start_stop_modules classes fuel m ≡ (return tt, n)
      → n.running ≡ []
  unfolding start_stop_modules contains
  start_stop_modules-nothing fuel m n h e =
      let (final, p, q) = >>=-eq-return (rounds classes fuel []) report m e in
      let (_, same) = report-eq-return classes final _ n q in
      let nothing = rounds-nothing classes keeps fuel m n [] final h (λ i. (p i, same i)) in
      none_contained n.running
        (λ s. start_stop_modules-same classes fuel m n e s ∙ ap (λ l. contains l s) nothing)

  collect-nothing :
      (bound : ℕ) (ws ds : List Spec) (k : Manager W)
      → ws ≡ []
      → (on_world (collect (add classes bound) ws) k).0 ≡ return ds
      → ds ≡ []
  unfolding collect
  collect-nothing bound [] ds k h e = ground arith
  collect-nothing bound (w ∷ ws) ds k h e = cc

  apply_selection-nothing :
      (bound : ℕ) (m n : Manager W)
      → m.wanted ≡ []
      → apply_selection classes bound m ≡ (return tt, n)
      → n.running ≡ []
  unfolding apply_selection unique
  apply_selection-nothing bound m n h e =
      let depend = on_world (collect (add classes bound) m.wanted) in
      let finish : List Spec → Exec (Manager W) (Unit {0}) =
        λ ds. modify (λ k. record k { wanted = unique ds }) >> start_stop_modules classes bound in
      let (ds, p, q) = >>=-eq-return depend finish m e in
      start_stop_modules-nothing bound (record (depend m).1 { wanted = unique ds }) n
        (ap unique (collect-nothing bound m.wanted ds m h p)) q

  -- If the last selector clears the list of wanted modules, `update` leaves no module running.
  synchronize-nothing :
      (bound : ℕ) (m n : Manager W) (l : List (List Spec → Exec (Selection W) (Unit {0})))
      (f : List Spec → Exec (Selection W) (Unit {0}))
      → Clears f
      → classes.selectors m.world ≡ l ++ f ∷ []
      → synchronize classes bound m ≡ (return tt, n)
      → n.running ≡ []
  unfolding synchronize
  synchronize-nothing bound m n l f c sel e =
      let m0 = record m { wanted = [] } in
      let sels = classes.selectors m.world in
      let (_, p, q) =
        >>=-eq-return (run_selectors sels) (λ _. apply_selection classes bound) m0 e in
      let k = (run_selectors sels m0).1 in
      apply_selection-nothing bound k n
        (run_selectors-last l f m0 k c
          ((subst (λ s. run_selectors s m0 ≡ (return tt, k)) sel (λ i. (p i, k)))))
        q

pub map-last :
    {A B : Type 0} (f : A → B) (l : List A) (a : A) → map f (l ++ a ∷ []) ≡ map f l ++ f a ∷ []
map-last f [] a = refl
map-last f (x ∷ l) a = ap (λ t. f x ∷ t) (map-last f l a)

-- If the modules' `stop` does not make a wanted list that is empty hold modules, and the keys of
-- the registered selectors are smaller than "95-shutdown": after a shutdown that returns, no
-- module is running and the PID file is gone.
shutdown-nothing :
    (classes : Classes World) (is_systemd : Bool) (bound : ℕ) (m n : Daemon)
    → KeepsNothing classes
    → ((w : World) → classes.selectors w ≡ selectors_of is_systemd w)
    → AllBelow "95-shutdown" m.world.selectors
    → shutdown (synchronize classes bound) m ≡ (return tt, n)
    → (n.running ≡ []) × (n.world.pid_file ≡ false)
unfolding shutdown selectors_of run_selector
shutdown-nothing classes is_systemd bound m n keeps sel below e =
    let m1 = install_shutdown m in
    let (_, p, q) = >>=-eq-return (synchronize classes bound) (λ _. modify remove_pid_file) m1 e in
    let m2 = (synchronize classes bound m1).1 in
    let (l, sorted) = sort_keys-register "95-shutdown" shutting_down m.world.selectors below in
    let run = λ (e : String × Selector). run_selector is_systemd e.1 in
    (
      ap (λ y. y.1.running) (sym q)
          ∙ synchronize-nothing classes keeps bound m1 m2 (map run l)
              (run_selector is_systemd shutting_down) (λ rs x. refl)
              (sel m1.world ∙ ap (map run) sorted ∙ map-last run l ("95-shutdown", shutting_down))
              (λ i. (p i, m2)),
      ap (λ y. y.1.world.pid_file) (sym q),
    )
