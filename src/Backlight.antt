-- ===== src/Backlight.antt =====
-- modules/xbacklight.py: fading the screen, and restoring its brightness.
pub mod Parse
pub mod Restore
use blankie.Prelude.{
  ℕ, String, List, [], ◌∷◌, ◌++◌, Bool, true, false, not, ◌||◌, Option, none, some, if◌then◌else◌,
}
use blankie.Exec.{Exec, exception, return, pure, throw, gets, modify, ◌>>=◌, ◌>>◌}
use blankie.Spec.{str_eq}

abbrev pub is_option : String → Bool
is_option a = str_eq a "-ctrl" || str_eq a "-display" || str_eq a "-perceived"

-- `_parse_config`: an option and its value are for every call, all else for setting the brightness.
unfoldable pub parse_config : List String → List String × List String
parse_config [] = ([], [])
parse_config (a ∷ []) = if is_option a then (a ∷ [], []) else ([], a ∷ [])
parse_config (a ∷ b ∷ l) =
    let pair = parse_config l in
    let next = parse_config (b ∷ l) in
    if is_option a then (a ∷ b ∷ pair.0, pair.1) else (next.0, a ∷ next.1)

-- The attributes of the module, and the brightness of the screen. `fading` is whether there is a
-- process.
pub record Backlight : Type 0 where
  pub args : List String
  pub set_args : List String
  pub fading : Bool
  pub brightness : Option String
  pub screen : String

unfoldable pub new_backlight : List String → String → Backlight
unfolding parse_config
new_backlight args screen =
    let (own, set_args) = parse_config args in
    record { args = own; set_args = set_args; fading = false; brightness = none; screen = screen }

abbrev same_args : List String → List String → Bool
same_args [] [] = true
same_args [] (y ∷ ys) = false
same_args (x ∷ xs) [] = false
same_args (x ∷ xs) (y ∷ ys) = if str_eq x y then same_args xs ys else false

unfoldable pub reconfigure : List String → Exec Backlight Bool
unfolding parse_config
reconfigure new x =
    let (args, set_args) = parse_config new in
    if same_args x.args args
    then (return true, record x { set_args = set_args })
    else (return false, x)

-- `start`; whether `xbacklight` can be asked for the brightness, and whether it can be run.
unfoldable pub start : (answers runs : Bool) → Exec Backlight (Unit {0})
start answers runs x =
    let asked = record x { brightness = some x.screen } in
    if x.fading
    then (return tt, x)
    else if not answers
    then throw (exception "CalledProcessError") x
    else if runs
    then (return tt, record asked { fading = true })
    else throw (exception "FileNotFoundError") asked

-- What becomes of `xbacklight -set` with the original brightness: it sets it; it fails, and leaves the
-- screen at some level; or the program is not found. `subprocess.call` drops the status.
pub data Setting : Type 0 where
  sets : Setting
  fails : String → Setting
  missing : Setting

abbrev set_brightness : Setting → String → Exec Backlight (Unit {0})
set_brightness sets b = modify (λ x. record x { screen = b })
set_brightness (fails level) b = modify (λ x. record x { screen = level })
set_brightness missing b = throw (exception "FileNotFoundError")

abbrev restore : Setting → Option String → Exec Backlight (Unit {0})
restore setting none = pure tt
restore setting (some b) = set_brightness setting b >> modify (λ x. record x { brightness = none })

unfoldable pub stop : Setting → Exec Backlight (Unit {0})
stop setting x = restore setting x.brightness (record x { fading = false })

unfoldable pub handle_exit : Backlight → Backlight
handle_exit x = record x { fading = false }
