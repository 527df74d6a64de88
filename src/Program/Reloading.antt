-- ===== src/Program/Reloading.antt =====
-- What runs after the configuration has been read again (`reload` of config.py).
use blankie.Prelude.{ℕ, [], ◌∷◌, Bool, true, ◌≡◌, refl, subst, sym, ◌∙◌, some}
use blankie.Exec.{Exec, return, >>=-eq-return}
use blankie.Spec.{Spec, contains}
use blankie.UserConfig.{UserConfig}
use blankie.World.{World, configuration}
use blankie.Manager.{on_world}
use blankie.Manager.Update.{update}
use blankie.Config.Asks.{AsksFor, config_selector-asks}
use blankie.Session.{Daemon}
use blankie.Selectors.{run_selector}
use blankie.Selectors.Chosen.{Registered, NoneEnds}
use blankie.Selectors.Asked.{Asks}
use blankie.Lifecycle.{reload}
use blankie.Program.{AllHold, Ready, Serves, update-runs}
use blankie.Program.Locking.{config_demand}
use blankie.Program.Launchers.{IsRobust, Ready-IsSturdy}
use blankie.Program.Modules.{Rest, program}
use blankie.Program.Kept.{RestKeeps, IsFreed, freed-KeptByUnlock, program-KeepsIf}

abbrev pub IsConfigured : UserConfig → World → Type 0
IsConfigured c w = w.config ≡ some c

-- Whether the daemon is locked or not.
abbrev pub AlwaysAsksFor : Spec → UserConfig → Type 0
AlwaysAsksFor s c = (locked : Bool) → AsksFor locked s c

-- Reading the configuration file gives this configuration, and leaves the registry of the selectors
-- as it was.
pub record Reads (load : Exec World (Unit {0})) (c : UserConfig) : Type 0 where
  pub config : (w v : World) → load w ≡ (return tt, v) → v.config ≡ some c
  pub selectors : (w v : World) → load w ≡ (return tt, v) → v.selectors ≡ w.selectors

module _ (is_systemd : Bool) (c : UserConfig) (s : Spec) (asks : AlwaysAsksFor s c) where
  always-Asks : (w : World) → IsConfigured c w → Asks is_systemd w configuration s
  unfolding run_selector
  always-Asks w configured running x y same e =
      config_selector-asks s c x y (same.config ∙ configured) (asks x.world.locked) e

  always-Serves : Serves is_systemd (IsConfigured c) (config_demand s ∷ [])
  always-Serves = record {
    stable = λ w v same configured. same.config ∙ configured;
    asks = λ w configured. (always-Asks w configured, tt);
  }

IsConfigured-IsFreed :
    (c : UserConfig) (s : Spec)
    → IsFreed (Ready (IsConfigured c) (config_demand s ∷ [])) (AllHold (config_demand s ∷ []))
IsConfigured-IsFreed c s = record {
  frees = λ w r. record { fact = r.fact; registered = r.registered; alive = r.alive };
  reads = λ w r. record { fact = r.fact; registered = r.registered; alive = r.alive };
  notifies = λ w r. record { fact = r.fact; registered = r.registered; alive = r.alive };
}

module _ (rest : Rest) (is_systemd : Bool) where
  -- With the program's modules and selectors, where the configuration's selector is registered and
  -- the daemon is not shutting down, and the modules that do not call `update` keep it so, and keep
  -- the configuration: if the configuration file that is read asks for the module `s`, locked or not,
  -- then `s` is running when `reload` returns, and the daemon has the file's configuration.
  pub reload-runs :
      (c : UserConfig) (s : Spec)
      → AlwaysAsksFor s c
      → RestKeeps (Ready (IsConfigured c) (config_demand s ∷ [])) rest
      → (load : Exec World (Unit {0})) → Reads load c
      → (fuel : ℕ) (m n : Daemon) → Registered "20-config" configuration m.world.selectors
      → NoneEnds m.world.selectors
      → reload (update (program rest is_systemd) fuel) load m ≡ (return tt, n)
      → (contains n.running s ≡ true) × (n.world.config ≡ some c)
  unfolding reload program
  reload-runs c s asks keeps load reads fuel m n registered alive e =
      let ds = config_demand s ∷ [] in
      let Q = IsConfigured c in
      let u = update (program rest is_systemd) fuel in
      let (_, q, e') = >>=-eq-return (on_world load) (λ _. u) m e in
      let v = (load m.world).1 in
      let loaded : load m.world ≡ (return tt, v) = λ i. (q i, v) in
      let same = reads.selectors m.world v loaded in
      let robust : IsRobust Q = record { registers = λ w l q. q; locks = λ w q. q } in
      let ready : Ready Q ds v = record {
        fact = reads.config m.world v loaded;
        registered = (subst (Registered "20-config" configuration) (sym same) registered, tt);
        alive = subst NoneEnds (sym same) alive;
      } in
      let (running, still) =
        update-runs is_systemd Q ds (always-Serves is_systemd c s asks) (program rest is_systemd)
          (λ u w. refl)
          (program-KeepsIf (Ready Q ds) (AllHold ds) (Ready-IsSturdy Q ds robust (refl, tt))
            (freed-KeptByUnlock _ _ (IsConfigured-IsFreed c s)) rest keeps is_systemd)
          fuel (record m { world = v }) n ready e' in
      (running.0, still.fact)
