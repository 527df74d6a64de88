-- ===== src/Selectors.antt =====
-- The selectors, which say what modules should run, and their registry: `module.selectors`, the core
-- selector of __init__.py, modules/lock.py, the launchers of session.py, and daemon.py's shutdown.
pub mod Asked
pub mod Chosen
pub mod Last
pub mod Final
use Prim.Native.Nat.{Ordering}
use Prim.Native.String.{compare}
use blankie.Prelude.{String, List, [], ◌∷◌, ◌++◌, Bool, true, false, map, if◌then◌else◌}
use blankie.Exec.{Exec, exception, return, pure, throw, modify, ◌>>=◌, ◌>>◌}
use blankie.Spec.{Spec, str_eq, nil}
use blankie.World.{
  World, Selector, core, configuration, session_set, launcher, lock_state, shutting_down,
}
use blankie.Manager.{Selection}
use blankie.Config.{config_selector}
use blankie.Session.{Daemon, session_selector, per_session}

abbrev pub plain : String → Spec
plain name = record { name = name; params = nil }

-- `core_selector`
unfoldable pub core_modules : (is_systemd : Bool) → List Spec
core_modules is_systemd =
    plain "server"
    ∷ plain "remote_receiver"
    ∷ plain "xss"
    ∷ plain "tty_idle"
    ∷ (if is_systemd then plain "logind" ∷ [] else [])

abbrev ask : List Spec → Exec (Selection World) (Unit {0})
ask specs x = (return tt, record x { chosen = x.chosen ++ specs })

-- Calls a selector; `running` is `running_modules`.
unfoldable pub run_selector :
    (is_systemd : Bool) → Selector → List Spec → Exec (Selection World) (Unit {0})
unfolding core_modules
run_selector is_systemd core running = ask (core_modules is_systemd)
run_selector is_systemd configuration running = config_selector
run_selector is_systemd session_set running = session_selector
run_selector is_systemd (launcher type name args) running = ask (per_session type name args running)
run_selector is_systemd lock_state running =
    λ x. ask (if x.world.locked then plain "lock" ∷ [] else []) x
run_selector is_systemd shutting_down running = modify (λ x. record x { chosen = [] })

-- `selectors[key] = selector`
unfoldable pub register : String → Selector → List (String × Selector) → List (String × Selector)
register k f [] = (k, f) ∷ []
register k f ((j, g) ∷ l) = if str_eq j k then (j, f) ∷ l else (j, g) ∷ register k f l

-- `k < j` on keys: by code points.
abbrev pub is_lt : Ordering → Bool
is_lt Ordering.lt = true
is_lt Ordering.eq = false
is_lt Ordering.gt = false

unfoldable pub key_lt : String → String → Bool
key_lt k j = is_lt (compare k j)

-- `for key in sorted(selectors.keys())`
unfoldable pub insert_key : String → Selector → List (String × Selector) → List (String × Selector)
unfolding key_lt
insert_key k f [] = (k, f) ∷ []
insert_key k f ((j, g) ∷ l) = if key_lt k j then (k, f) ∷ (j, g) ∷ l else (j, g) ∷ insert_key k f l

unfoldable pub sort_keys : List (String × Selector) → List (String × Selector)
unfolding insert_key
sort_keys [] = []
sort_keys ((k, f) ∷ l) = insert_key k f (sort_keys l)

-- The selectors in the order in which `update` calls them.
unfoldable pub selectors_of :
    (is_systemd : Bool) → World → List (List Spec → Exec (Selection World) (Unit {0}))
unfolding run_selector sort_keys
selectors_of is_systemd w = map (λ e. run_selector is_systemd e.1) (sort_keys w.selectors)

abbrev pub has_key : String → List (String × Selector) → Bool
has_key k [] = false
has_key k ((j, g) ∷ l) = if str_eq j k then true else has_key k l

-- `del selectors[key]` for a key that is there.
unfoldable pub unregister_selector : String → List (String × Selector) → List (String × Selector)
unregister_selector k [] = []
unregister_selector k ((j, g) ∷ l) = if str_eq j k then l else (j, g) ∷ unregister_selector k l

abbrev pub set_selectors : List (String × Selector) → Daemon → Daemon
set_selectors l m = record m { world = record m.world { selectors = l } }

module _ (update : Exec Daemon (Unit {0})) where
  -- `PerSessionModuleLauncher.start` and `stop`, with the launcher's selector and its key.
  unfoldable pub launcher_start : String → Selector → Exec Daemon (Unit {0})
  unfolding register
  launcher_start k f m = update (set_selectors (register k f m.world.selectors) m)

  unfoldable pub launcher_stop : String → Exec Daemon (Unit {0})
  unfolding unregister_selector
  launcher_stop k m =
      if has_key k m.world.selectors
      then update (set_selectors (unregister_selector k m.world.selectors) m)
      else throw (exception "KeyError") m
