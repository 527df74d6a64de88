-- ===== src/Idle/Order.antt =====
-- `max` on points in time (__init__.py).
use blankie.Prelude.{
  List, [], ◌∷◌, Bool, true, false, ◌≡◌, refl, ◌⊎◌, inl, inr, arith, if◌then◌else◌,
}
use blankie.World.{Moment}
use blankie.Idle.{before, max_from, latest}

-- `t` is in the list.
abbrev pub Among : Moment → List Moment → Type 0
Among t [] = ⊥
Among t (u ∷ l) = (t ≡ u) ⊎ Among t l

before_trans : (a b c : Moment) → before b a ≡ false → before c b ≡ false → before c a ≡ false
unfolding before
before_trans a b c h k = ground arith

before_refl : (a : Moment) → before a a ≡ false
unfolding before
before_refl a = ground arith

before_asym : (a b : Moment) → before a b ≡ true → before b a ≡ false
unfolding before
before_asym a b h = ground arith

max_from-ge : (best : Moment) (l : List Moment) → before (max_from best l) best ≡ false
unfolding max_from
max_from-ge best [] = before_refl best
max_from-ge best (t ∷ l) = ground (
  arith,
  max_from-ge t l,
  max_from-ge best l,
  before_asym best t,
  before_trans best t (max_from t l),
)

-- The result is one of the times given, and no time given is later.
max_from-max :
    (best : Moment) (l : List Moment)
    → Among (max_from best l) (best ∷ l)
      × ((t : Moment) → Among t l → before (max_from best l) t ≡ false)
unfolding max_from
max_from-max best [] = (inl refl, λ t m. absurd m)
max_from-max best (t ∷ l) = go (before best t) refl (max_from-max best l) (max_from-max t l)
  where
    Result : Moment → Type 0
    Result m = Among m (best ∷ t ∷ l) × ((u : Moment) → Among u (t ∷ l) → before m u ≡ false)

    go :
        (b : Bool)
        → before best t ≡ b
        → Among (max_from best l) (best ∷ l)
          × ((u : Moment) → Among u l → before (max_from best l) u ≡ false)
        → Among (max_from t l) (t ∷ l)
          × ((u : Moment) → Among u l → before (max_from t l) u ≡ false)
        → Result (max_from (if b then t else best) l)
    go true e kept moved = (inr moved.0, later)
      where
        later : (u : Moment) → Among u (t ∷ l) → before (max_from t l) u ≡ false
        later u (inl p) = rw p (max_from-ge t l)
        later u (inr m) = moved.1 u m
    go false e kept moved = (skip kept.0, later)
      where
        skip : Among (max_from best l) (best ∷ l) → Among (max_from best l) (best ∷ t ∷ l)
        skip (inl p) = inl p
        skip (inr m) = inr (inr m)

        later : (u : Moment) → Among u (t ∷ l) → before (max_from best l) u ≡ false
        later u (inl p) = rw p (before_trans t best (max_from best l) e (max_from-ge best l))
        later u (inr m) = kept.1 u m

-- The latest of at least one time is one of them, and none is later.
pub latest-max :
    (t : Moment) (l : List Moment)
    → Among (latest (t ∷ l)) (t ∷ l)
      × ((u : Moment) → Among u (t ∷ l) → before (latest (t ∷ l)) u ≡ false)
unfolding latest
latest-max t l =
    let (m, ge) = max_from-max t l in
    (m, λ u n. elim n [ inl p ↦ rw p (max_from-ge t l) | inr n' ↦ ge u n' ])
