-- ===== src/Program/Kept.antt =====
-- The program's modules keep what `update` promises, if the modules that do not call it do.
use blankie.Prelude.{[], ◌++◌, ap, String, List, Bool, true, false, ◌≡◌, refl, subst, if◌then◌else◌}
use blankie.Exec.{modify, Exec, return, throw, exception}
use blankie.Exec.Triples.{Triple, Triple-modify, Triple->>=}
use blankie.Spec.{Spec, Values}
use blankie.World.{World, Selector, launcher, sensing}
use blankie.Manager.Promise.{Promised, Unwanted, Honours, Triple-on_world}
use blankie.Manager.Promise.Whole.{Delivers}
use blankie.Manager.{on_world}
use blankie.Session.{Daemon, lock, unlock, set_locked, invalidate_sessions}
use blankie.Session.Modules.{session_start}
use blankie.Selectors.{
  plain, register, unregister_selector, set_selectors, launcher_start, launcher_stop, has_key,
}
use blankie.Program.{KeepsIf}
use blankie.Program.Launchers.{IsSturdy, selector_key}
use blankie.Program.Modules.{
  Kind, session, tty_session, launching, locking, others, kind_of, kind_of-locking, Rest, start,
  stop, program,
}

-- The rest of the program keeps `I`.
pub record RestKeeps (I : World → Type 0) (rest : Rest) : Type 0 where
  pub gets : (s : Spec) → Triple I (rest.get s) (λ _. I)
  pub starts : (s : Spec) → Triple I (rest.start s) (λ _. I)
  pub stops : (s : Spec) → Triple I (rest.stop s) (λ _. I)
  pub reconfigures : (r s : Spec) → Triple I (rest.reconfigure r s) (λ _. I)
  pub rekeys : (r s : Spec) (w : World) → I w → I (rest.rekey r s w)

module _ (I : World → Type 0) (C : List Spec → Type 0) (u : Exec Daemon (Unit {0}))
    (delivers : Delivers I C u) (sturdy : IsSturdy I) (repr type name : String) where
  abbrev key : String
  key = selector_key repr type name

  launcher_start-Honours :
      (per_session_name : String) (args : Values)
      → Honours I C (launcher_start u key (launcher type per_session_name args))
  unfolding launcher_start
  launcher_start-Honours per_session_name args m n a p e =
      let g = launcher type per_session_name args in
      delivers (set_selectors (register key g m.world.selectors) m) n a
        (sturdy.registers repr type name per_session_name args m.world p.0) e

  launcher_stop-Honours : Honours I C (launcher_stop u key)
  unfolding launcher_stop
  launcher_stop-Honours m n a p e = go (has_key key m.world.selectors) e
    where
      l : List (String × Selector)
      l = unregister_selector key m.world.selectors

      go :
          (b : Bool)
          → (if b then u (set_selectors l m) else throw (exception "KeyError") m) ≡ (return a, n)
          → Promised I C n
      go true e = delivers (set_selectors l m) n a (sturdy.unregisters repr type name m.world p.0) e
      go false e = cc

module _ (I : World → Type 0) (C : List Spec → Type 0) where
  -- The module "lock" unlocks when it is stopped.
  abbrev pub KeptByUnlock : Type 0
  KeptByUnlock =
      (u : Exec Daemon (Unit {0}))
      → Delivers I C u
      → Triple (Unwanted I C (plain "lock")) (unlock u) (λ _. Promised I C)

  -- What `unlock` does to the world before it calls `update` keeps `I`.
  pub record IsFreed : Type 0 where
    pub frees : (w : World) → I w → I (record w { locked = false })
    pub reads : (w : World) → I w → I (sensing invalidate_sessions w).1
    pub notifies :
        (w : World) → I w → I (record w { notified = w.notified ++ w.waiting; waiting = [] })

  pub freed-KeptByUnlock : IsFreed → KeptByUnlock
  unfolding unlock
  freed-KeptByUnlock freed u delivers m n a p e =
      let R : Unit {0} → Daemon → Type 0 = λ _. Promised I C in
      Triple->>= P (λ _. P) R _ _ set_free
        (λ _.
          Triple->>= P (λ _. P) R _ _ read_again
            (λ _. Triple->>= P (λ _. P) R _ _ told (λ _. delivers)))
        m n a p.0 e
    where
      P : Daemon → Type 0
      P k = I k.world

      set_free : Triple P (modify (set_locked false)) (λ _. P)
      set_free = Triple-modify P P (set_locked false) (λ k. freed.frees k.world)

      told :
          Triple P
            (modify (λ k. record k {
              world = record k.world {
                notified = k.world.notified ++ k.world.waiting;
                waiting = [];
              };
            }))
            (λ _. P)
      told = Triple-modify P P _ (λ k. freed.notifies k.world)

      read_again : Triple P (on_world (sensing invalidate_sessions)) (λ _. P)
      read_again k k' x r h = subst P (ap (λ y. y.1) h) (freed.reads k.world r)

  module _ (sturdy : IsSturdy I) (unlocks : KeptByUnlock) (rest : Rest)
      (keeps : RestKeeps I rest) where
    lock-Honours : (u : Exec Daemon (Unit {0})) → Delivers I C u → Honours I C (lock u)
    unfolding lock
    lock-Honours u delivers m n a p e =
        delivers (set_locked true m) n a (sturdy.locks m.world p.0) e

    start-Honours :
        (u : Exec Daemon (Unit {0}))
        → Delivers I C u
        → (s : Spec) (k : Kind) → Honours I C (start rest u s k)
    unfolding start
    start-Honours u delivers s session m n a p e = delivers m n a p.0 e
    start-Honours u delivers s tty_session m n a p e = opened (rest.opens s) e
      where
        opened :
            (b : Bool)
            → (if b then session_start u else throw (exception "OSError")) m ≡ (return a, n)
            → Promised I C n
        opened true e = delivers m n a p.0 e
        opened false e = cc
    start-Honours u delivers s (launching l) m n a p e =
        launcher_start-Honours I C u delivers sturdy (rest.repr s) l.session_type s.name
          l.per_session_name s.params m n a p e
    start-Honours u delivers s locking m n a p e = lock-Honours u delivers m n a p e
    start-Honours u delivers s others m n a p e =
        Triple-on_world I C (rest.start s) (keeps.starts s) m n a p e

    stop-Promised :
        (u : Exec Daemon (Unit {0}))
        → Delivers I C u
        → (s : Spec) (k : Kind) → kind_of s ≡ k
        → Triple (Unwanted I C s) (stop rest u s k) (λ _. Promised I C)
    unfolding stop
    stop-Promised u delivers s session h m n a p e = delivers m n a p.0 e
    stop-Promised u delivers s tty_session h m n a p e = delivers m n a p.0 e
    stop-Promised u delivers s (launching l) h m n a p e =
        launcher_stop-Honours I C u delivers sturdy (rest.repr s) l.session_type s.name m n a
          (p.0, p.1.0) e
    stop-Promised u delivers s locking h m n a p e =
        unlocks u delivers m n a (subst (λ r. Unwanted I C r m) (kind_of-locking s h) p) e
    stop-Promised u delivers s others h m n a p e =
        Triple-on_world I C (rest.stop s) (keeps.stops s) m n a (p.0, p.1.0) e

    pub program-KeepsIf : (is_systemd : Bool) → KeepsIf I C (program rest is_systemd)
    unfolding program
    program-KeepsIf is_systemd u delivers = record {
      gets_world = keeps.gets;
      reconfigures = keeps.reconfigures;
      rekeys = keeps.rekeys;
      starts = λ s. start-Honours u delivers s (kind_of s);
      stops = λ s. stop-Promised u delivers s (kind_of s) refl;
    }
