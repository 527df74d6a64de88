-- ===== src/Config/Keeps.antt =====
-- What reading the sensors and evaluating the configuration leave alone: the lock state, the
-- selectors, the set of sessions and the configuration (config.py, __init__.py).
use blankie.Prelude.{zero, suc, ◌≡◌, arith, Option, none, some}
use blankie.Prelude.Int.{pos, negsuc}
use blankie.Exec.{>>=_keeps}
use blankie.UserConfig.{
  Argument, integer, other, UserConfig, finish, fail, run_module, is_locked, is_idle_for,
  set_bus_key,
}
use blankie.World.{World}
use blankie.Idle.Keeps.{get_idle_since-Same}
use blankie.Config.{
  idle_time, is_idle_for_seconds, ask_idle_for, run_config, evaluate, reset, config_or_nothing,
}

-- The lock state, the selectors, the set of sessions and the configuration are those of `w`.
pub record Untouched (w v : World) : Type 0 where
  pub locked : v.locked ≡ w.locked
  pub selectors : v.selectors ≡ w.selectors
  pub specs : v.sensors.session_specs ≡ w.sensors.session_specs
  pub config : v.config ≡ w.config

module _ (w : World) where
  pub idle_time-Untouched : (v : World) → Untouched w v → Untouched w (idle_time v).1
  unfolding idle_time
  idle_time-Untouched v h =
      let same = get_idle_since-Same w.sensors.session_specs v.sensors h.specs in ground arith

  ask_idle_for-Untouched :
      (a : Argument) (v : World) → Untouched w v → Untouched w (ask_idle_for a v).1
  unfolding ask_idle_for is_idle_for_seconds
  ask_idle_for-Untouched (integer (pos (suc n))) v h = ground (arith, idle_time-Untouched v h)
  ask_idle_for-Untouched (integer (pos zero)) v h = h
  ask_idle_for-Untouched (integer (negsuc n)) v h = h
  ask_idle_for-Untouched other v h = h

  run_config-Untouched :
      (c : UserConfig) (v : World) → Untouched w v → Untouched w (run_config c v).1
  unfolding run_config
  run_config-Untouched finish v h = h
  run_config-Untouched (fail e) v h = h
  run_config-Untouched (run_module s next) v h = run_config-Untouched next _ (ground arith)
  run_config-Untouched (is_locked next) v h = run_config-Untouched (next v.locked) v h
  run_config-Untouched (is_idle_for a next) v h =
      let h' = ask_idle_for-Untouched a v h in
      >>=_keeps (Untouched w) (ask_idle_for a) _ v h'
        (λ b _. run_config-Untouched (next b) (ask_idle_for a v).1 h')
  run_config-Untouched (set_bus_key key next) v h = run_config-Untouched next _ (ground arith)

  pub evaluate-Untouched : (v : World) → Untouched w v → Untouched w (evaluate v).1
  unfolding evaluate
  evaluate-Untouched v h = go v.config
    where
      go : (c : Option UserConfig) → Untouched w (config_or_nothing c (reset v)).1
      go none = ground arith
      go (some c) = run_config-Untouched c (reset v) (ground arith)
