-- ===== src/Selectors/Last.antt =====
-- Which selector is called last.
use blankie.Prelude.{String, List, [], ◌∷◌, ◌++◌, true, false, ◌≡◌, refl, inl, inr, Bool-cases}
use package.text.Mathlib.Text.{is_eq}
use Prim.Native.Nat.{Ordering}
use Prim.Native.String.{compare}
use blankie.Spec.{str_eq}
use blankie.World.{Selector}
use blankie.Selectors.{is_lt, key_lt, insert_key, sort_keys, register}

-- All keys are smaller than `k`.
abbrev pub AllBelow : String → List (String × Selector) → Type 0
AllBelow k [] = Unit
AllBelow k ((j, g) ∷ l) = (key_lt j k ≡ true) × AllBelow k l

pub insert_key-last :
    (k last : String) (f g : Selector) (l : List (String × Selector))
    → key_lt k last ≡ true
    → (l' : List (String × Selector)) × (insert_key k f (l ++ (last, g) ∷ [])
        ≡ l' ++ (last, g) ∷ [])
unfolding insert_key
insert_key-last k last f g [] h = ((k, f) ∷ [], rw h)
insert_key-last k last f g ((j, e) ∷ l) h =
    let (l', p) = insert_key-last k last f g l h in
    elim (Bool-cases (key_lt k j)) [
      | inl b ↦ ((k, f) ∷ (j, e) ∷ l, rw b)
      | inr b ↦ ((j, e) ∷ l', rw (b, p))
    ]

is_lt-is_eq : (o : Ordering) → is_lt o ≡ true → is_eq o ≡ false
is_lt-is_eq Ordering.lt h = refl
is_lt-is_eq Ordering.eq h = cc
is_lt-is_eq Ordering.gt h = refl

key_lt-str_eq : (j k : String) → key_lt j k ≡ true → str_eq j k ≡ false
unfolding key_lt
key_lt-str_eq j k h = is_lt-is_eq (compare j k) h

-- A selector whose key is greater than all others is called last.
pub sort_keys-register :
    (k : String) (f : Selector) (l : List (String × Selector))
    → AllBelow k l
    → (l' : List (String × Selector)) × (sort_keys (register k f l) ≡ l' ++ (k, f) ∷ [])
unfolding sort_keys register
sort_keys-register k f [] h = ([], refl)
sort_keys-register k f ((j, g) ∷ l) (h, hs) =
    let (l', p) = sort_keys-register k f l hs in
    let (l'', q) = insert_key-last j k g f l' h in (l'', rw (key_lt-str_eq j k h, p, q))
