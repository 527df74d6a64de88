-- ===== src/Program.antt =====
-- The daemon as a whole: the module manager with the program's selectors, whose modules may call
-- `update` when they are started or stopped (module.py, session.py, __init__.py).
pub mod Launchers
pub mod Modules
pub mod Kept
pub mod Locking
pub mod Shutdown
pub mod Reloading
pub mod Attaching
use blankie.Prelude.{Bool, false, ℕ, String, List, [], ◌∷◌, true, ◌≡◌, sym, subst, ◌∙◌}
use blankie.Exec.{Exec, return}
use blankie.Spec.{Spec, contains}
use blankie.World.{World, Selector}
use blankie.Manager.{Classes}
use blankie.Manager.Update.{add, run_selectors, update}
use blankie.Manager.Order.{wanted-IsOrdered}
use blankie.Manager.Promise.{Keeps, Chooses, Minds}
use blankie.Manager.Promise.Whole.{Delivers, update-Delivered}
use blankie.Manager.Promise.Collect.{collect-Minds, add-Minds}
use blankie.Config.Keeps.{Untouched}
use blankie.Session.{Daemon}
use blankie.Selectors.{selectors_of}
use blankie.Selectors.Chosen.{Registered, NoneEnds}
use blankie.Selectors.Asked.{Asks, selectors_of-Asks, selectors_of-Untouched}

-- A selector, its key, and a module that it asks for.
pub record Demand : Type 0 where
  pub key : String
  pub selector : Selector
  pub spec : Spec

abbrev pub AllRegistered : List Demand → List (String × Selector) → Type 0
AllRegistered [] l = Unit
AllRegistered (d ∷ ds) l = Registered d.key d.selector l × AllRegistered ds l

abbrev pub AllHold : List Demand → List Spec → Type 0
AllHold [] ws = Unit
AllHold (d ∷ ds) ws = (contains ws d.spec ≡ true) × AllHold ds ws

abbrev pub AllAsk : Bool → World → List Demand → Type 0
AllAsk is_systemd w [] = Unit
AllAsk is_systemd w (d ∷ ds) = Asks is_systemd w d.selector d.spec × AllAsk is_systemd w ds

-- The selectors are registered, `Q` holds, and the daemon is not shutting down.
pub record Ready (Q : World → Type 0) (ds : List Demand) (w : World) : Type 0 where
  pub fact : Q w
  pub registered : AllRegistered ds w.selectors
  pub alive : NoneEnds w.selectors

-- Where `Q` holds, the selectors ask for their modules.
pub record Serves (is_systemd : Bool) (Q : World → Type 0) (ds : List Demand) : Type 0 where
  pub stable : (w v : World) → Untouched w v → Q w → Q v
  pub asks : (w : World) → Q w → AllAsk is_systemd w ds

-- The classes of the modules as a function of `update`, with the selectors of the program.
abbrev pub HasSelectors : Bool → (Exec Daemon (Unit {0}) → Classes World) → Type 0
HasSelectors is_systemd program =
    (u : Exec Daemon (Unit {0})) (w : World) → (program u).selectors w ≡ selectors_of is_systemd w

-- If `update` keeps `I` and a promise, so do the methods of the modules.
abbrev pub KeepsIf :
    (World → Type 0) → (List Spec → Type 0) → (Exec Daemon (Unit {0}) → Classes World) → Type 0
KeepsIf I C program = (u : Exec Daemon (Unit {0})) → Delivers I C u → Keeps I C (program u)

module _ (is_systemd : Bool) where
  chosen-AllHold :
      (ds : List Demand) (m n : Daemon) (ws : List Spec)
      → AllAsk is_systemd m.world ds
      → AllRegistered ds m.world.selectors
      → NoneEnds m.world.selectors
      → run_selectors (selectors_of is_systemd m.world) (record m { wanted = [] }) ≡ (return tt, n)
      → ((s : Spec) → contains n.wanted s ≡ true → contains ws s ≡ true)
      → AllHold ds ws
  chosen-AllHold [] m n ws asks registered alive called within = tt
  chosen-AllHold (d ∷ ds) m n ws (ask, asks) (found, registered) alive called within = (
    within d.spec (selectors_of-Asks is_systemd d.key d.selector d.spec m n ask found alive called),
    chosen-AllHold ds m n ws asks registered alive called within,
  )

module _ (is_systemd : Bool) (Q : World → Type 0) (ds : List Demand)
    (serves : Serves is_systemd Q ds) where
  Ready-Untouched : (w v : World) → Untouched w v → Ready Q ds w → Ready Q ds v
  Ready-Untouched w v same ready = record {
    fact = serves.stable w v same ready.fact;
    registered = subst (AllRegistered ds) (sym same.selectors) ready.registered;
    alive = subst NoneEnds (sym same.selectors) ready.alive;
  }

  Ready-Chooses :
      (classes : Classes World)
      → ((w : World) → classes.selectors w ≡ selectors_of is_systemd w)
      → ((r : Spec) → Minds (Ready Q ds) (AllHold ds) (classes.get r))
      → Chooses (Ready Q ds) (AllHold ds) classes
  Ready-Chooses classes sel gets m n bound deps w ready called collected =
      let called' =
        subst (λ l. run_selectors l (record m { wanted = [] }) ≡ (return tt, n)) (sel m.world)
          called in
      let same = selectors_of-Untouched is_systemd m n ready.alive called' in
      (
        collect-Minds (Ready Q ds) (add classes bound) (add-Minds (Ready Q ds) classes gets bound)
            n.wanted n.world w deps (Ready-Untouched m.world n.world same ready) collected,
        chosen-AllHold is_systemd ds m n _ (serves.asks m.world ready.fact) ready.registered
            ready.alive called'
            (wanted-IsOrdered classes bound n.wanted n.world w deps collected).1,
      )

  -- When `update` returns, the modules that the selectors ask for are running.
  pub update-runs :
      (program : Exec Daemon (Unit {0}) → Classes World)
      → HasSelectors is_systemd program
      → KeepsIf (Ready Q ds) (AllHold ds) program
      → (fuel : ℕ) (m n : Daemon) → Ready Q ds m.world
      → update program fuel m ≡ (return tt, n)
      → AllHold ds n.running × Ready Q ds n.world
  update-runs program sel keeps fuel m n ready e =
      let d =
        update-Delivered (Ready Q ds) (AllHold ds) program keeps
          (λ u h. Ready-Chooses (program u) (sel u) (keeps u h).gets_world) fuel m n tt ready e in
      (running ds d.0.1 d.1, d.0.0)
    where
      running :
          (l : List Demand)
          → AllHold l n.wanted
          → ((s : Spec) → contains n.running s ≡ contains n.wanted s)
          → AllHold l n.running
      running [] hold same = tt
      running (x ∷ l) (held, hold) same = (same x.spec ∙ held, running l hold same)
