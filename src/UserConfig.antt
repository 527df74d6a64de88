-- ===== src/UserConfig.antt =====
-- The user's configuration function `config(c)`: it is not part of the program, and is given by the
-- calls of the configurator's API (config.py) that it makes, each followed by what it does with the
-- answer.
use blankie.Prelude.{ℕ, List, Bool}
use blankie.Prelude.Int.{ℤ}
use blankie.Exec.{Error}
use blankie.Spec.{Spec}

-- The argument of `is_idle_for`: an `int`, or any other object.
pub data Argument : Type 0 where
  integer : ℤ → Argument
  other : Argument

pub data UserConfig : Type 0 where
  finish : UserConfig
  fail : Error → UserConfig
  run_module : Spec → UserConfig → UserConfig
  is_locked : (Bool → UserConfig) → UserConfig
  is_idle_for : Argument → (Bool → UserConfig) → UserConfig
  set_bus_key : List ℕ → UserConfig → UserConfig
