-- ===== src/Program/Attaching.antt =====
-- What runs when a session is attached (`attach` and `session_selector` of session.py).
use blankie.Prelude.{
  refl, ℕ, [], ◌∷◌, ◌++◌, Bool, true, false, ◌≡◌, ap, subst, arith, ◌∙◌, if◌then◌else◌,
}
use blankie.Exec.{
  Exec, Outcome, Error, return, raise, out_of_fuel, handle, try_except, throw, user_error, ◌>>◌,
  >>=-eq-return,
}
use blankie.Spec.{Spec, contains, contains-append, contains-snoc, spec_eq_refl}
use blankie.World.{World, session_set}
use blankie.Manager.Update.{update}
use blankie.Session.{Daemon, attach, undo_attach, discard, set_specs, specs_of, session_selector}
use blankie.Selectors.{run_selector}
use blankie.Selectors.Chosen.{Registered, NoneEnds}
use blankie.Selectors.Asked.{Asks}
use blankie.Session.Invalidate.{invalidate_sessions-Same}
use blankie.Program.{Demand, AllHold, Ready, Serves, update-runs}
use blankie.Program.Modules.{Rest, program}
use blankie.Program.Launchers.{IsRobust, Ready-IsSturdy}
use blankie.Program.Kept.{RestKeeps, IsFreed, freed-KeptByUnlock, program-KeepsIf}

abbrev pub IsAttached : Spec → World → Type 0
IsAttached s w = contains w.sensors.session_specs s ≡ true

session_set-Asks :
    (is_systemd : Bool) (s : Spec) (w : World) → IsAttached s w → Asks is_systemd w session_set s
unfolding run_selector session_selector
session_set-Asks is_systemd s w attached running x y same e =
    let here = ap (λ l. contains l s) same.specs ∙ attached in
    subst (λ z. contains z.chosen s ≡ true) (ap (λ p. p.1) e)
      (ground (arith, contains-append x.chosen x.world.sensors.session_specs s, here))

abbrev pub session_demand : Spec → Demand
session_demand s = record { key = "30-sessions"; selector = session_set; spec = s }

session_set-Serves :
    (is_systemd : Bool) (s : Spec) → Serves is_systemd (IsAttached s) (session_demand s ∷ [])
session_set-Serves is_systemd s = record {
  stable = λ w v same attached. ap (λ l. contains l s) same.specs ∙ attached;
  asks = λ w attached. (session_set-Asks is_systemd s w attached, tt);
}

-- Unlocking leaves the set of sessions alone.
IsAttached-IsFreed :
    (s : Spec)
    → IsFreed (Ready (IsAttached s) (session_demand s ∷ [])) (AllHold (session_demand s ∷ []))
IsAttached-IsFreed s = record {
  frees = λ w r. record { fact = r.fact; registered = r.registered; alive = r.alive };
  reads = λ w r.
      let same = invalidate_sessions-Same w.sensors.session_specs w.sensors refl in
      record {
        fact = ap (λ l. contains l s) same ∙ r.fact;
        registered = r.registered;
        alive = r.alive;
      };
  notifies = λ w r. record { fact = r.fact; registered = r.registered; alive = r.alive };
}

undo_attach-ne-return :
    (u : Exec Daemon (Unit {0})) (s : Spec) (x : Error) (m n : Daemon)
    → undo_attach u s x m ≡ (return tt, n)
    → ⊥
unfolding undo_attach
undo_attach-ne-return u s x m n e =
    let (_, _, e') = >>=-eq-return (discard u s) (λ _. u >> throw x) m e in
    let (_, _, e'') = >>=-eq-return u (λ _. throw x) (discard u s m).1 e' in cc

not_caught :
    (u : Exec Daemon (Unit {0})) (s : Spec) (r : Outcome (Unit {0})) (k n : Daemon)
    → handle r (undo_attach u s) k ≡ (return tt, n)
    → ◌≡◌ {A = Outcome (Unit {0}) × Daemon} (r, k) (return tt, n)
not_caught u s (return a) k n e = e
not_caught u s (raise x) k n e = absurd (undo_attach-ne-return u s x k n e)
not_caught u s out_of_fuel k n e = cc

-- `attach` returns only if its `update` does.
attached-update :
    (u : Exec Daemon (Unit {0})) (s : Spec) (m n : Daemon)
    → attach u s m ≡ (return tt, n)
    → u (set_specs (specs_of m ++ s ∷ []) m) ≡ (return tt, n)
unfolding attach
attached-update u s m n e = go (contains (specs_of m) s) e
  where
    go :
        (b : Bool)
        → (if b
            then throw (user_error "Already attached to this session") m
            else try_except u (undo_attach u s) (set_specs (specs_of m ++ s ∷ []) m))
          ≡ (return tt, n)
        → u (set_specs (specs_of m ++ s ∷ []) m) ≡ (return tt, n)
    go true e = cc
    go false e = let m' = set_specs (specs_of m ++ s ∷ []) m in not_caught u s (u m').0 (u m').1 n e

module _ (rest : Rest) (is_systemd : Bool) where
  -- With the program's modules and selectors, where the sessions' selector is registered and the
  -- daemon is not shutting down, and the modules that do not call `update` keep it so, and keep the
  -- session in the set: when `attach` returns, the session is running and in the set.
  pub attach-runs :
      (s : Spec)
      → RestKeeps (Ready (IsAttached s) (session_demand s ∷ [])) rest
      → (fuel : ℕ) (m n : Daemon) → Registered "30-sessions" session_set m.world.selectors
      → NoneEnds m.world.selectors
      → attach (update (program rest is_systemd) fuel) s m ≡ (return tt, n)
      → (contains n.running s ≡ true) × (contains (specs_of n) s ≡ true)
  unfolding program
  attach-runs s keeps fuel m n registered alive e =
      let ds = session_demand s ∷ [] in
      let m' = set_specs (specs_of m ++ s ∷ []) m in
      let fact : IsAttached s m'.world =
        ground (arith, contains-snoc (specs_of m) s s, spec_eq_refl s) in
      let ready : Ready (IsAttached s) ds m'.world = record {
        fact = fact;
        registered = (registered, tt);
        alive = alive;
      } in
      let robust : IsRobust (IsAttached s) = record { registers = λ w l q. q; locks = λ w q. q } in
      let (running, still) =
        update-runs is_systemd (IsAttached s) ds (session_set-Serves is_systemd s)
          (program rest is_systemd) (λ u w. refl)
          (program-KeepsIf (Ready (IsAttached s) ds) (AllHold ds)
            (Ready-IsSturdy (IsAttached s) ds robust (refl, tt))
            (freed-KeptByUnlock _ _ (IsAttached-IsFreed s)) rest keeps is_systemd)
          fuel m' n ready (attached-update (update (program rest is_systemd) fuel) s m n e) in
      (running.0, still.fact)
