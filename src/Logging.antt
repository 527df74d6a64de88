-- ===== src/Logging.antt =====
-- logging.py: the severities, the logger's methods, and how the environment sets the log up. What the
-- standard library's `logging` does with it is written out.
pub mod Verbosity
use Prim.Native.String.{[] as ε, ◌∷◌ as ◌◂◌, ◌++◌ as ◌<>◌}
use Prim.Native.Char.{Char, code}
use blankie.Prelude.{
  ℕ, suc, ◌+◌, ◌-◌, ◌*◌, ◌||◌, String, List, [], ◌∷◌, ◌++◌, Bool, true, false, ◌&&◌, Option, none,
  some, leb, ◌==◌, get_elem?, length, if◌then◌else◌,
}
use blankie.Prelude.Int.{ℤ, pos, negsuc, ◌+ℤ◌, ◌-ℤ◌}
use blankie.Exec.{Exec, Outcome, return, raise, exception}

-- Severities; those of `logging`, and the two of Blankie.
abbrev pub critical : ℕ
critical = 50

abbrev pub error : ℕ
error = 40

abbrev pub security_level : ℕ
security_level = error - 5

abbrev pub warning : ℕ
warning = 30

abbrev pub info : ℕ
info = 20

abbrev pub debug : ℕ
debug = 10

abbrev pub trace_level : ℕ
trace_level = debug - 5

-- What `int` sees in a character: digits of other scripts and blanks beyond ASCII are `other`.
pub data Glyph : Type 0 where
  digit : ℕ → Glyph
  plus : Glyph
  minus : Glyph
  underscore : Glyph
  blank : Glyph
  other : Glyph

unfoldable pub glyph : ℕ → Glyph
glyph c =
    if leb 48 c && leb c 57
    then digit (c - 48)
    else if c == 43
    then plus
    else if c == 45
    then minus
    else if c == 95
    then underscore
    else if (leb 9 c && leb c 13) || (leb 28 c && leb c 32)
    then blank
    else other

-- Where `int` is in its text.
pub data IntPhase : Type 0 where
  before : IntPhase
  signed : IntPhase
  digits : IntPhase
  joined : IntPhase
  after : IntPhase

unfoldable pub next : IntPhase → Glyph → Option IntPhase
next before blank = some before
next before plus = some signed
next before minus = some signed
next before (digit d) = some digits
next signed (digit d) = some digits
next digits (digit d) = some digits
next digits underscore = some joined
next digits blank = some after
next joined (digit d) = some digits
next after blank = some after
next _ _ = none

-- The value that has been read, without the sign.
abbrev extend : ℕ → Glyph → ℕ
extend n (digit d) = n * 10 + d
extend n _ = n

abbrev is_minus : Bool → Glyph → Bool
is_minus negative minus = true
is_minus negative _ = negative

abbrev signed_value : Bool → ℕ → ℤ
signed_value negative n = if negative then pos 0 -ℤ pos n else pos n

abbrev finished : Option IntPhase → Bool → ℕ → Option ℤ
finished (some digits) negative n = some (signed_value negative n)
finished (some after) negative n = some (signed_value negative n)
finished _ negative n = none

abbrev step : Option IntPhase → Glyph → Option IntPhase
step none g = none
step (some p) g = next p g

unfoldable pub scan : Option IntPhase → Bool → ℕ → String → Option ℤ
unfolding next glyph ◌-ℤ◌
scan p negative n ε = finished p negative n
scan p negative n (c ◂ s) =
    let g = glyph (code c) in scan (step p g) (is_minus negative g) (extend n g) s

-- `int(text)`, `none` for a ValueError.
unfoldable pub int : String → Option ℤ
unfolding scan
int = scan (some before) false 0

-- The levels by BLANKIE_VERBOSE, from -4 on.
abbrev pub levels : List ℕ
levels = critical ∷ error ∷ security_level ∷ warning ∷ info ∷ debug ∷ trace_level ∷ []

-- `l[i]`: a negative index counts from the end, and `none` is an IndexError.
unfoldable pub at_index : {A : Type 0} → List A → ℤ → Option A
at_index l (pos n) = get_elem? l n
at_index l (negsuc n) = if leb (suc n) (length l) then get_elem? l (length l - suc n) else none

-- The fields of a log line that a format names.
pub data Piece : Type 0 where
  name : Piece
  level_name : Piece
  message : Piece
  literal : String → Piece

-- Blankie's log: the format and the level of the root logger, and what was written.
pub record Log : Type 0 where
  pub format : List Piece
  pub level : ℕ
  pub lines : List String

abbrev pub default_format : List Piece
default_format = name ∷ literal ": " ∷ message ∷ []

abbrev pub or_default : {A : Type 0} → A → Option A → A
or_default a none = a
or_default a (some b) = b

abbrev pub leveled : List Piece → Option ℕ → Outcome Log
leveled format none = raise (exception "IndexError")
leveled format (some l) = return (record { format = format; level = l; lines = [] })

abbrev pub chosen_level : List Piece → Option ℤ → Outcome Log
chosen_level format none = raise (exception "ValueError")
chosen_level format (some v) = leveled format (at_index levels (pos 4 +ℤ v))

-- `logging.basicConfig(...)` with BLANKIE_LOG_FORMAT and BLANKIE_VERBOSE, where they are set.
unfoldable pub configure : Option (List Piece) → Option String → Outcome Log
unfolding int at_index ◌+ℤ◌
configure format verbose =
    chosen_level (or_default default_format format) (int (or_default "0" verbose))

-- The names of the levels. (No code of Blankie logs at another level.)
abbrev name_of_level : ℕ → String
name_of_level l =
    if l == trace_level
    then "TRACE"
    else if l == security_level
    then "SECURITY"
    else if l == critical
    then "CRITICAL"
    else if l == error
    then "ERROR"
    else if l == warning
    then "WARNING"
    else if l == info
    then "INFO"
    else "DEBUG"

abbrev piece_text : (logger : String) → ℕ → String → Piece → String
piece_text logger l text name = logger
piece_text logger l text level_name = name_of_level l
piece_text logger l text message = text
piece_text logger l text (literal s) = s

abbrev pub line_of : (logger : String) → ℕ → String → List Piece → String
line_of logger l text [] = ""
line_of logger l text (p ∷ ps) = piece_text logger l text p <> line_of logger l text ps

module _ (logger : String) where
  -- `Logger.log` of the logger of this name, whose own level is not set.
  unfoldable pub log : ℕ → String → Exec Log (Unit {0})
  log l text x = (
    return tt,
    if leb x.level l
        then record x { lines = x.lines ++ line_of logger l text x.format ∷ [] }
        else x,
  )

  unfoldable pub trace : String → Exec Log (Unit {0})
  unfolding log
  trace text = log trace_level text

  unfoldable pub security : String → Exec Log (Unit {0})
  unfolding log
  security text = log security_level text
