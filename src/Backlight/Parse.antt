-- ===== src/Backlight/Parse.antt =====
-- Sorting the arguments of `xbacklight` (modules/xbacklight.py, _parse_config).
use blankie.Prelude.{String, List, [], ◌∷◌, ◌++◌, true, false, ◌≡◌, refl, ◌⊎◌, inl, inr}
use blankie.Backlight.{is_option, parse_config}

-- The list is a sequence of options, each with its value.
abbrev pub ArePairs : List String → Type 0
ArePairs [] = Unit
ArePairs (a ∷ []) = ⊥
ArePairs (a ∷ b ∷ l) = (is_option a ≡ true) × ArePairs l

abbrev pub NoOptions : List String → Type 0
NoOptions [] = Unit
NoOptions (a ∷ l) = (is_option a ≡ false) × NoOptions l

-- Each option is followed by its value.
abbrev pub IsComplete : List String → Type 0
IsComplete [] = Unit
IsComplete (a ∷ []) = is_option a ≡ false
IsComplete (a ∷ b ∷ l) =
    (is_option a ≡ true) × IsComplete l ⊎ (is_option a ≡ false) × IsComplete (b ∷ l)

parse_config-sorts :
    (args : List String)
    → IsComplete args
    → ArePairs (parse_config args).0 × NoOptions (parse_config args).1
unfolding parse_config
parse_config-sorts [] h = (tt, tt)
parse_config-sorts (a ∷ []) h = rw h (tt, (h, tt))
parse_config-sorts (a ∷ b ∷ l) (inl (e, h)) =
    rw e ((e, (parse_config-sorts l h).0), (parse_config-sorts l h).1)
parse_config-sorts (a ∷ b ∷ l) (inr (e, h)) =
    rw e ((parse_config-sorts (b ∷ l) h).0, (e, (parse_config-sorts (b ∷ l) h).1))

parse_config-none : (ys : List String) → NoOptions ys → parse_config ys ≡ ([], ys)
unfolding parse_config
parse_config-none [] h = refl
parse_config-none (a ∷ []) (e, h) = rw e
parse_config-none (a ∷ b ∷ l) (e, h) = rw (e, parse_config-none (b ∷ l) h)

parse_config-append :
    (xs ys : List String) → ArePairs xs → NoOptions ys → parse_config (xs ++ ys) ≡ (xs, ys)
unfolding parse_config
parse_config-append [] ys p h = parse_config-none ys h
parse_config-append (a ∷ []) ys p h = absurd p
parse_config-append (a ∷ b ∷ l) ys (e, p) h = rw (e, parse_config-append l ys p h)

-- If every option has its value, parsing finds the options with their values, and the rest, which
-- holds no option; and parsing the two results again, one after the other, gives the same results.
parse_config-stable :
    (args : List String)
    → IsComplete args
    → let (own, set_args) = parse_config args in
      ArePairs own × NoOptions set_args × (parse_config (own ++ set_args) ≡ (own, set_args))
parse_config-stable args h =
    let (p, n) = parse_config-sorts args h in
    (p, n, parse_config-append (parse_config args).0 (parse_config args).1 p n)
