-- ===== src/Commands.antt =====
-- The modules that run a command when they are started and another when they are stopped:
-- modules/xset.py, dpms.py, xkbmap.py, dunst.py and physlock_vtswitch.py.
pub mod Keymap
use blankie.Prelude.{
  ℕ, String, List, [], ◌∷◌, ◌++◌, Bool, true, false, Option, none, some, if◌then◌else◌,
}
use blankie.Exec.{Exec, exception, return, pure, throw, modify, ◌>>=◌, ◌>>◌}

-- What the commands set: the X server's screen saver timeout ("s off" is `none`), the level that
-- DPMS was forced to and whether it is enabled, whether dunst is paused, and whether the switching of
-- terminals is disabled.
pub record Settings : Type 0 where
  pub screen_saver : Option ℕ
  pub dpms_level : String
  pub dpms_enabled : Bool
  pub paused : Bool
  pub switching_disabled : Bool

-- `subprocess.check_call`, which raises if the command fails.
abbrev pub check_call : {S : Type 0} → (works : Bool) → (S → S) → Exec S (Unit {0})
check_call true f = modify f
check_call false f = throw (exception "CalledProcessError")

-- `XSetPerSessionModule`
pub record XSet : Type 0 where
  pub xset_time : ℕ
  pub settings : Settings

abbrev set_timeout : (works : Bool) → Exec XSet (Unit {0})
set_timeout works =
    check_call works
      (λ x. record x { settings = record x.settings { screen_saver = some x.xset_time } })

unfoldable pub xset_start : (works : Bool) → Exec XSet (Unit {0})
xset_start works = set_timeout works

unfoldable pub xset_reconfigure : (works : Bool) → ℕ → Exec XSet Bool
xset_reconfigure works time =
    modify (λ x. record x { xset_time = time }) >> (set_timeout works >> pure true)

unfoldable pub xset_stop : (works : Bool) → Exec XSet (Unit {0})
xset_stop works =
    check_call works (λ x. record x { settings = record x.settings { screen_saver = none } })

-- `DPMSPerSessionModule`, with its state; forcing a level enables DPMS.
unfoldable pub dpms_start : (works : Bool) → String → Exec Settings (Unit {0})
dpms_start works state =
    check_call works (λ x. record x { dpms_level = state; dpms_enabled = true })

unfoldable pub dpms_stop : (forces disables : Bool) → Exec Settings (Unit {0})
dpms_stop forces disables =
    check_call forces (λ x. record x { dpms_level = "on"; dpms_enabled = true })
    >> check_call disables (λ x. record x { dpms_enabled = false })

unfoldable pub dunst_start : (works : Bool) → Exec Settings (Unit {0})
dunst_start works = check_call works (λ x. record x { paused = true })

unfoldable pub dunst_stop : (works : Bool) → Exec Settings (Unit {0})
dunst_stop works = check_call works (λ x. record x { paused = false })

unfoldable pub vtswitch_start : (works : Bool) → Exec Settings (Unit {0})
vtswitch_start works = check_call works (λ x. record x { switching_disabled = true })

unfoldable pub vtswitch_stop : (works : Bool) → Exec Settings (Unit {0})
vtswitch_stop works = check_call works (λ x. record x { switching_disabled = false })
