-- ===== src/Manager.antt =====
-- module.py: the module manager. `update` computes the wanted modules, and `start_stop_modules`
-- starts, stops and reconfigures modules until the running ones match.
pub mod Update
pub mod Rounds
pub mod Searches
mod Measure
mod StepOne
pub mod Work
pub mod Ordered
pub mod Reentrant
pub mod Reconfigure
pub mod Operations
pub mod Contract
pub mod Order
pub mod Termination
pub mod Reliable
pub mod Promise
pub mod Returns
use blankie.Prelude.{
  ℕ, zero, suc, List, [], ◌∷◌, ◌++◌, Bool, true, false, not, ◌&&◌, Option, none, some, set,
  if◌then◌else◌,
}
use blankie.Exec.{
  user_error, Exec, return, pure, throw, diverge, gets, modify, ◌>>=◌, ◌>>◌, try_except,
}
use blankie.Spec.{Spec, str_eq, contains, erase_at, insert_at, remove}

-- The module's globals `running_modules` and `wanted_modules`, and `world`: all other state of the
-- daemon, `module_instances` and `selectors` included.
pub record Manager (W : Type 0) : Type 0 where
  pub running : List Spec
  pub wanted : List Spec
  pub world : W

-- What a selector may write: the wanted list under construction, and the world.
pub record Selection (W : Type 0) : Type 0 where
  pub chosen : List Spec
  pub world : W

-- What the manager calls. `get` makes the instance of a spec exist; `reconfigure` is the method of
-- the instance of its first argument, called with the parameters of the second; `rekey` files the
-- instance under its new spec; `selectors` lists `selectors[key]` by increasing key, each a
-- function of `running_modules`. Only `start` and `stop` may change the manager's own lists.
pub record Classes (W : Type 0) : Type 0 where
  pub get : Spec → Exec W (Unit {0})
  pub start : Spec → Exec (Manager W) (Unit {0})
  pub stop : Spec → Exec (Manager W) (Unit {0})
  pub reconfigure : Spec → Spec → Exec W Bool
  pub rekey : Spec → Spec → W → W
  pub dependencies : Spec → List Spec
  pub selectors : W → List (List Spec → Exec (Selection W) (Unit {0}))

-- An action on the world alone, run by the manager.
abbrev pub on_world {ℓ} : {W : Type 0} {A : Type ℓ} → Exec W A → Exec (Manager W) A
on_world act m = let (r, w) = act m.world in (r, record m { world = w })

-- `wanted_module[0] == running_module[0]`
unfoldable pub same_name : Spec → Spec → Bool
same_name a b = str_eq a.name b.name

-- What one round did: nothing was left to do, or an operation was performed; the list holds the
-- modules that have failed to stop.
pub data Progress : Type 0 where
  idle : Progress
  again : List Spec → Progress

-- Step 2 looks for the last running module that is not wanted and has not failed to stop.
unfoldable pub last_unwanted : (wanted errors : List Spec) → ℕ → List Spec → Option (ℕ × Spec)
last_unwanted wanted errors i [] = none
last_unwanted wanted errors i (r ∷ rs) = elim (last_unwanted wanted errors (suc i) rs) [
  | some hit ↦ some hit
  | none ↦ if not (contains wanted r) && not (contains errors r) then some (i, r) else none
]

-- Step 3 looks for the first wanted module that is not running.
unfoldable pub first_missing : (running wanted : List Spec) → Option Spec
first_missing running [] = none
first_missing running (w ∷ ws) =
    let rest = first_missing running ws in if contains running w then rest else some w

module _ {W : Type 0} where
  -- "Put the module we just started at the end".
  unfoldable pub move_last : Spec → Manager W → Manager W
  move_last w m =
      if contains m.wanted w && contains m.running w
      then record m { running = remove m.running w ++ w ∷ [] }
      else m

  abbrev pub resume :
      (List Spec → Exec (Manager W) (List Spec))
      → List Spec
      → Progress
      → Exec (Manager W) (List Spec)
  resume more errors idle = pure errors
  resume more errors (again errors') = more errors'

  abbrev pub report : List Spec → Exec (Manager W) (Unit {0})
  report [] = pure tt
  report (e ∷ es) = throw (user_error "Failed to stop some modules.")

module _ {W : Type 0} (classes : Classes W) where
  -- The end of step 1 for a successful reconfiguration: `running_modules[i] = wanted_module`, and
  -- the instance is filed under its new spec.
  unfoldable pub adopt : ℕ → Spec → Spec → Manager W → Manager W
  adopt i r w m = record m { running = set m.running i w; world = classes.rekey r w m.world }

  -- Step 1, the loop over the running modules, from index `i` on.
  unfoldable pub try_running : Spec → ℕ → List Spec → Exec (Manager W) Bool
  unfolding same_name adopt
  try_running w i [] = pure false
  try_running w i (r ∷ rs) =
      let rest = try_running w (suc i) rs in
      let attempt : Exec (Manager W) Bool = do
        on_world (classes.get r)
        done ← on_world (classes.reconfigure r w)
        if done then modify (adopt i r w) >> pure true else rest
      in λ m. (if same_name w r && not (contains m.wanted r) then attempt else rest) m

  -- Step 1, the loop over the wanted modules.
  unfoldable pub try_wanted : List Spec → Exec (Manager W) Bool
  unfolding try_running
  try_wanted [] = pure false
  try_wanted (w ∷ ws) =
      let rest = try_wanted ws in
      let attempt : Exec (Manager W) Bool = do
        running ← gets (λ m. m.running)
        hit ← try_running w 0 running
        if hit then pure true else rest
      in λ m. (if contains m.running w then rest else attempt) m

  -- Step 2 for the module at `i`. It leaves the list before its `stop` is called, and comes back if
  -- that raises.
  unfoldable pub stop_one : List Spec → ℕ → Spec → Exec (Manager W) Progress
  stop_one errors i r =
      let put_back = modify (λ m. record m { running = insert_at m.running i r }) in
      do
        modify (λ m. record m { running = erase_at m.running i })
        on_world (classes.get r)
        stopped ← try_except (classes.stop r >> pure true) (λ _. pure false)
        if stopped then pure (again errors) else put_back >> pure (again (errors ++ r ∷ []))

  -- Step 3 for a wanted module. It joins the list before its `start` is called.
  unfoldable pub start_one : Spec → Exec (Manager W) (Unit {0})
  unfolding move_last
  start_one w = do
    modify (λ m. record m { running = m.running ++ w ∷ [] })
    on_world (classes.get w)
    classes.start w
    modify (move_last w)

  -- Steps 2 and 3, with what their searches found.
  unfoldable pub perform : List Spec → Option (ℕ × Spec) → Option Spec → Exec (Manager W) Progress
  perform errors (some (i, r)) missing = stop_one errors i r
  perform errors none (some w) = start_one w >> pure (again errors)
  perform errors none none = pure idle

  unfoldable pub stop_or_start : List Spec → Exec (Manager W) Progress
  unfolding perform
  stop_or_start errors m =
      perform errors (last_unwanted m.wanted errors 0 m.running) (first_missing m.running m.wanted)
        m

  unfoldable pub after_step_one : List Spec → Bool → Exec (Manager W) Progress
  unfolding stop_or_start
  after_step_one errors true = pure (again errors)
  after_step_one errors false = stop_or_start errors

  unfoldable pub do_one_module : List Spec → Exec (Manager W) Progress
  unfolding after_step_one
  do_one_module errors = do
    wanted ← gets (λ m. m.wanted)
    hit ← try_wanted wanted
    after_step_one errors hit

  -- `while do_one_module(): pass`; the result is the final `errors`.
  unfoldable pub rounds : ℕ → List Spec → Exec (Manager W) (List Spec)
  rounds zero errors = diverge
  rounds (suc fuel) errors = do_one_module errors >>= resume (rounds fuel) errors

  unfoldable pub start_stop_modules : ℕ → Exec (Manager W) (Unit {0})
  start_stop_modules fuel = rounds fuel [] >>= report
