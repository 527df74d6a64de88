-- ===== src/Program/Locking.antt =====
-- What runs when the daemon is locked (`lock` of __init__.py, modules/lock.py, config.py).
use blankie.Prelude.{
  ℕ, List, [], ◌∷◌, ◌++◌, Bool, true, false, ◌≡◌, refl, sym, ap, subst, arith, ◌∙◌, some,
  if◌then◌else◌,
}
use blankie.Exec.{return}
use blankie.Spec.{Spec, contains, contains-append, spec_eq_refl}
use blankie.UserConfig.{UserConfig}
use blankie.World.{World, configuration, lock_state}
use blankie.Manager.Update.{update}
use blankie.Config.Asks.{AsksFor, config_selector-asks}
use blankie.Session.{Daemon, lock, set_locked}
use blankie.Selectors.{plain, run_selector}
use blankie.Selectors.Chosen.{Registered, NoneEnds}
use blankie.Selectors.Asked.{Asks}
use blankie.Program.{Demand, AllHold, Ready, Serves, update-runs}
use blankie.Program.Modules.{Rest, program}
use blankie.Program.Launchers.{IsRobust, Ready-IsSturdy}
use blankie.Program.Kept.{RestKeeps, KeptByUnlock, program-KeepsIf}

abbrev pub IsLocked : World → Type 0
IsLocked w = w.locked ≡ true

lock_state-Asks :
    (is_systemd : Bool) (w : World) → IsLocked w → Asks is_systemd w lock_state (plain "lock")
unfolding run_selector contains
lock_state-Asks is_systemd w locked running x y same e =
    subst (λ z. contains z.chosen (plain "lock") ≡ true) (ap (λ p. p.1) e)
      (asked x.chosen x.world.locked (same.locked ∙ locked))
  where
    asked :
        (l : List Spec) (b : Bool)
        → b ≡ true
        → contains (l ++ (if b then plain "lock" ∷ [] else [])) (plain "lock") ≡ true
    asked l true h =
        ground
          (arith, contains-append l (plain "lock" ∷ []) (plain "lock"), spec_eq_refl (plain "lock"))
    asked l false h = cc

abbrev pub lock_demand : Demand
lock_demand = record { key = "50-lock"; selector = lock_state; spec = plain "lock" }

abbrev pub config_demand : Spec → Demand
config_demand s = record { key = "20-config"; selector = configuration; spec = s }

-- Locked, with this configuration.
pub record AsksLocked (c : UserConfig) (w : World) : Type 0 where
  pub locked : w.locked ≡ true
  pub configured : w.config ≡ some c

lock_state-Serves : (is_systemd : Bool) → Serves is_systemd IsLocked (lock_demand ∷ [])
lock_state-Serves is_systemd = record {
  stable = λ w v same locked. same.locked ∙ locked;
  asks = λ w locked. (lock_state-Asks is_systemd w locked, tt);
}

configuration-Asks :
    (is_systemd : Bool) (c : UserConfig) (s : Spec) (w : World)
    → AsksFor true s c
    → AsksLocked c w
    → Asks is_systemd w configuration s
unfolding run_selector
configuration-Asks is_systemd c s w asks q running x y same e =
    config_selector-asks s c x y (same.config ∙ q.configured)
      (subst (λ l. AsksFor l s c) (sym (same.locked ∙ q.locked)) asks) e

configuration-Serves :
    (is_systemd : Bool) (c : UserConfig) (s : Spec)
    → AsksFor true s c
    → Serves is_systemd (AsksLocked c) (lock_demand ∷ config_demand s ∷ [])
configuration-Serves is_systemd c s asks = record {
  stable = λ w v same q. record {
    locked = same.locked ∙ q.locked;
    configured = same.config ∙ q.configured;
  };
  asks = λ w q.
      (lock_state-Asks is_systemd w q.locked, (configuration-Asks is_systemd c s w asks q, tt));
}

-- While the module "lock" is wanted, it is not stopped, and so does not unlock.
wanted-KeptByUnlock :
    (I : World → Type 0) (ds : List Demand) → KeptByUnlock I (AllHold (lock_demand ∷ ds))
wanted-KeptByUnlock I ds u delivers m n a p e = absurd (both p.1.0.0 p.1.1)
  where
    both : {b : Bool} → b ≡ true → b ≡ false → ⊥
    both yes_wanted not_wanted = cc

module _ (rest : Rest) (is_systemd : Bool) where
  -- With the program's modules and selectors, where the lock state's selector is registered and the
  -- daemon is not shutting down, and the modules that do not call `update` keep it so, and keep the
  -- daemon locked: when `lock` returns, the module "lock" is running, and the daemon is locked.
  pub lock-runs :
      RestKeeps (Ready IsLocked (lock_demand ∷ [])) rest
      → (fuel : ℕ) (m n : Daemon) → Registered "50-lock" lock_state m.world.selectors
      → NoneEnds m.world.selectors
      → lock (update (program rest is_systemd) fuel) m ≡ (return tt, n)
      → (contains n.running (plain "lock") ≡ true) × (n.world.locked ≡ true)
  unfolding lock program
  lock-runs keeps fuel m n registered alive e =
      let ds = lock_demand ∷ [] in
      let robust : IsRobust IsLocked = record { registers = λ w l q. q; locks = λ w q. refl } in
      let ready : Ready IsLocked ds (set_locked true m).world = record {
        fact = refl;
        registered = (registered, tt);
        alive = alive;
      } in
      let (running, still) =
        update-runs is_systemd IsLocked ds (lock_state-Serves is_systemd) (program rest is_systemd)
          (λ u w. refl)
          (program-KeepsIf (Ready IsLocked ds) (AllHold ds)
            (Ready-IsSturdy IsLocked ds robust (refl, tt))
            (wanted-KeptByUnlock (Ready IsLocked ds) []) rest keeps is_systemd)
          fuel (set_locked true m) n ready e in
      (running.0, still.fact)

  -- With the program's modules and selectors, where the selectors of the lock state and of the
  -- configuration are registered and the daemon is not shutting down, and the modules that do not
  -- call `update` keep it so, and keep the daemon locked and the configuration: if the user's
  -- configuration asks for the module `s` whenever the daemon is locked, `s` is running when `lock`
  -- returns, and so is the module "lock".
  pub lock-runs_configured :
      (c : UserConfig) (s : Spec)
      → AsksFor true s c
      → RestKeeps (Ready (AsksLocked c) (lock_demand ∷ config_demand s ∷ [])) rest
      → (fuel : ℕ) (m n : Daemon) → m.world.config ≡ some c
      → Registered "50-lock" lock_state m.world.selectors
      → Registered "20-config" configuration m.world.selectors
      → NoneEnds m.world.selectors
      → lock (update (program rest is_systemd) fuel) m ≡ (return tt, n)
      → (contains n.running s ≡ true) × (contains n.running (plain "lock") ≡ true)
  unfolding lock program
  lock-runs_configured c s asks keeps fuel m n configured lock_there config_there alive e =
      let ds = lock_demand ∷ config_demand s ∷ [] in
      let robust : IsRobust (AsksLocked c) = record {
        registers = λ w l q. record { locked = q.locked; configured = q.configured };
        locks = λ w q. record { locked = refl; configured = q.configured };
      } in
      let ready : Ready (AsksLocked c) ds (set_locked true m).world = record {
        fact = record { locked = refl; configured = configured };
        registered = (lock_there, (config_there, tt));
        alive = alive;
      } in
      let (running, _) =
        update-runs is_systemd (AsksLocked c) ds (configuration-Serves is_systemd c s asks)
          (program rest is_systemd) (λ u w. refl)
          (program-KeepsIf (Ready (AsksLocked c) ds) (AllHold ds)
            (Ready-IsSturdy (AsksLocked c) ds robust (refl, (refl, tt)))
            (wanted-KeptByUnlock (Ready (AsksLocked c) ds) (config_demand s ∷ [])) rest keeps
            is_systemd)
          fuel (set_locked true m) n ready e in
      (running.1.0, running.0)
