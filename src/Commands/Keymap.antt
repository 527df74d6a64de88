-- ===== src/Commands/Keymap.antt =====
-- modules/xkbmap.py: the keyboard map while the system is locked.
use blankie.Prelude.{String, List, [], ◌∷◌, ◌≡◌, refl, Option, none, some}
use Prim.Native.String.{◌++◌ as ◌^^◌}
use blankie.Exec.{Exec, exception, return, throw, modify, ◌>>◌}

-- `XKBMapPerSessionModule` on a display whose map is of the type `K`.
pub record XkbMap (K : Type 0) : Type 0 where
  pub xkbmap_args : List String
  pub xkbmap_state : Option (List String)
  pub keymap : K

-- The arguments that a line of `setxkbmap -query` stands for; the line is split at ": " and its
-- second part is stripped, and a line without a second part raises.
abbrev arguments_of : List (String × Option String) → Option (List String)
arguments_of [] = some []
arguments_of ((name, none) ∷ lines) = none
arguments_of ((name, some value) ∷ lines) = elim (arguments_of lines) [
  | none ↦ none
  | some rest ↦ some (("-" ^^ name) ∷ value ∷ rest)
]

-- `query` is the output of `setxkbmap -query`, and `setxkbmap` the effect of its arguments; `none`
-- where the command fails.
module _ {K : Type 0} (query : K → Option (List (String × Option String)))
    (setxkbmap : List String → K → Option K) where
  abbrev save : Option (List String) → Exec (XkbMap K) (Unit {0})
  save none = throw (exception "IndexError")
  save (some args) = modify (λ x. record x { xkbmap_state = some args })

  abbrev save_lines : Option (List (String × Option String)) → Exec (XkbMap K) (Unit {0})
  save_lines none = throw (exception "CalledProcessError")
  save_lines (some lines) = save (arguments_of lines)

  abbrev set_map : Option K → Exec (XkbMap K) (Unit {0})
  set_map none = throw (exception "CalledProcessError")
  set_map (some k) = modify (λ x. record x { keymap = k })

  unfoldable pub xkbmap_start : Exec (XkbMap K) (Unit {0})
  xkbmap_start = do
    λ x. save_lines (query x.keymap) x
    λ x. set_map (setxkbmap x.xkbmap_args x.keymap) x

  abbrev restore : Option (List String) → Exec (XkbMap K) (Unit {0})
  restore none = throw (exception "TypeError")
  restore (some args) = λ x. set_map (setxkbmap args x.keymap) x

  unfoldable pub xkbmap_stop : Exec (XkbMap K) (Unit {0})
  xkbmap_stop x = restore x.xkbmap_state x

  -- If `setxkbmap` takes back what it has told of a map: when the map was read at the start, also if
  -- setting the other map failed then, `stop` returns and the map is the one from before the start.
  pub xkbmap_stop-start :
      (x : XkbMap K) (lines : List (String × Option String)) (args : List String)
      → query x.keymap ≡ some lines
      → arguments_of lines ≡ some args
      → ((k : K) → setxkbmap args k ≡ some x.keymap)
      → let y = (xkbmap_start x).1 in
        ((xkbmap_stop y).0 ≡ return tt) × ((xkbmap_stop y).1.keymap ≡ x.keymap)
  unfolding xkbmap_start xkbmap_stop
  xkbmap_stop-start x lines args told parsed restores =
      let saved : XkbMap K = record x { xkbmap_state = some args } in
      rw told (rw parsed (go saved (setxkbmap x.xkbmap_args x.keymap)))
    where
      go :
          (y : XkbMap K) (set : Option K)
          → let z = (set_map set (record y { xkbmap_state = some args })).1 in
            ((xkbmap_stop z).0 ≡ return tt) × ((xkbmap_stop z).1.keymap ≡ x.keymap)
      go y none = rw (restores y.keymap) (refl, refl)
      go y (some k) = rw (restores k) (refl, refl)
