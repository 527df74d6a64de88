-- ===== src/Tests/Log.antt =====
-- The log at concrete settings of the environment.
use blankie.Prelude.{[], ◌∷◌, ◌≡◌, refl, some, none}
use blankie.Prelude.Int.{negsuc, ◌+ℤ◌, ◌-ℤ◌}
use blankie.Exec.{return, raise, exception}
use blankie.Logging.{
  default_format, Log, configure, int, trace, security, log, at_index, scan, next, glyph,
}

int_text : int " -1_2 " ≡ some (negsuc 11)
unfolding int scan next glyph ◌-ℤ◌
int_text = refl

int_no_text : int "- 5" ≡ none
unfolding int scan next glyph ◌-ℤ◌
int_no_text = refl

-- Without settings: information, and all that is more severe.
abbrev default_log : Log
default_log = record { format = default_format; level = 20; lines = [] }

default_settings : configure none none ≡ return default_log
unfolding configure int scan next glyph at_index ◌-ℤ◌ ◌+ℤ◌
default_settings = refl

default_lines :
    (security "blankie.server" "denied" default_log).1.lines ≡ "blankie.server: denied" ∷ []
unfolding security log
default_lines = refl

no_trace : (trace "blankie.server" "read" default_log).1.lines ≡ []
unfolding trace log
no_trace = refl

too_verbose : configure none (some "3") ≡ raise (exception "IndexError")
unfolding configure int scan next glyph at_index ◌-ℤ◌ ◌+ℤ◌
too_verbose = refl

-- Below -4 the index counts from the end.
quieter_than_quiet : configure none (some "-5") ≡ return (record default_log { level = 5 })
unfolding configure int scan next glyph at_index ◌-ℤ◌ ◌+ℤ◌
quieter_than_quiet = refl
