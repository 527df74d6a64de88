-- ===== src/Selectors/Final.antt =====
-- The selector with the greatest key is called last, whatever has been registered since it was.
use blankie.Prelude.{
  String, List, [], ◌∷◌, ◌++◌, true, false, ◌≡◌, refl, sym, subst, ◌⊎◌, inl, inr, Bool-cases,
}
use blankie.Spec.{str_eq, str_eq-eq}
use blankie.World.{Selector}
use blankie.Selectors.{key_lt, insert_key, sort_keys, register, unregister_selector}
use blankie.Selectors.Chosen.{Registered}
use blankie.Selectors.Last.{insert_key-last}

module _ (k : String) (f : Selector) where
  -- The key is smaller than `k`, or this is the selector of `k`.
  pub record IsEarly (j : String) (g : Selector) : Type 0 where
    pub not_after : key_lt k j ≡ false
    pub early : (key_lt j k ≡ true) ⊎ ((j ≡ k) × (g ≡ f))

  abbrev pub AllEarly : List (String × Selector) → Type 0
  AllEarly [] = Unit
  AllEarly ((j, g) ∷ l) = IsEarly j g × AllEarly l

  -- The selector of `k` is registered, and all others have smaller keys.
  pub record IsFinal (l : List (String × Selector)) : Type 0 where
    pub all_early : AllEarly l
    pub registered : Registered k f l

  insert_key-AllEarly :
      (j : String) (g : Selector) (l : List (String × Selector))
      → IsEarly j g
      → AllEarly l
      → AllEarly (insert_key j g l)
  unfolding insert_key
  insert_key-AllEarly j g [] h hs = (h, tt)
  insert_key-AllEarly j g ((i, e) ∷ l) h (h', hs) = elim (Bool-cases (key_lt j i)) [
    | inl b ↦ rw b (h, (h', hs))
    | inr b ↦ rw b (h', insert_key-AllEarly j g l h hs)
  ]

  sort_keys-AllEarly : (l : List (String × Selector)) → AllEarly l → AllEarly (sort_keys l)
  unfolding sort_keys
  sort_keys-AllEarly [] h = tt
  sort_keys-AllEarly ((j, g) ∷ l) (h, hs) =
      insert_key-AllEarly j g (sort_keys l) h (sort_keys-AllEarly l hs)

  insert_key-end : (l : List (String × Selector)) → AllEarly l → insert_key k f l ≡ l ++ (k, f) ∷ []
  unfolding insert_key
  insert_key-end [] h = refl
  insert_key-end ((j, g) ∷ l) (h, hs) = rw (h.not_after, insert_key-end l hs)

  pub sort_keys-last :
      (l : List (String × Selector))
      → AllEarly l
      → Registered k f l
      → (l' : List (String × Selector)) × (sort_keys l ≡ l' ++ (k, f) ∷ [])
  unfolding sort_keys
  sort_keys-last [] hs found = absurd found
  sort_keys-last ((j, g) ∷ l) (h, hs) found = elim h.early [
    | inl below ↦
        let (l', p) = sort_keys-last l hs (later below found) in
        let (l'', q) = insert_key-last j k g f l' below in (l'', rw (p, q))
    | inr (same_key, same_selector) ↦ (
      sort_keys l,
      rw (same_key, same_selector, insert_key-end (sort_keys l) (sort_keys-AllEarly l hs)),
    )
  ]
    where
      later : key_lt j k ≡ true → Registered k f ((j, g) ∷ l) → Registered k f l
      later below (inl (same, _)) =
          let before = subst (λ i. key_lt k i ≡ false) same h.not_after in
          let after = subst (λ i. key_lt i k ≡ true) same below in cc
      later below (inr there) = there

  pub register-AllEarly :
      (j : String) (g : Selector) (l : List (String × Selector))
      → IsEarly j g
      → AllEarly l
      → AllEarly (register j g l)
  unfolding register
  register-AllEarly j g [] h hs = (h, tt)
  register-AllEarly j g ((i, e) ∷ l) h (h', hs) = elim (Bool-cases (str_eq i j)) [
    | inl b ↦ rw b (subst (λ x. IsEarly x g) (sym (str_eq-eq b)) h, hs)
    | inr b ↦ rw b (h', register-AllEarly j g l h hs)
  ]

  pub unregister-AllEarly :
      (j : String) (l : List (String × Selector)) → AllEarly l → AllEarly (unregister_selector j l)
  unfolding unregister_selector
  unregister-AllEarly j [] hs = tt
  unregister-AllEarly j ((i, e) ∷ l) (h, hs) = elim (Bool-cases (str_eq i j)) [
    | inl b ↦ rw b hs
    | inr b ↦ rw b (h, unregister-AllEarly j l hs)
  ]

  IsEarly-self : key_lt k k ≡ false → IsEarly k f
  IsEarly-self h = record { not_after = h; early = inr (refl, refl) }

  register-found : (l : List (String × Selector)) → Registered k f (register k f l)
  unfolding register
  register-found [] = inl (refl, refl)
  register-found ((i, e) ∷ l) = elim (Bool-cases (str_eq i k)) [
    | inl b ↦ rw b (inl (str_eq-eq b, refl))
    | inr b ↦ rw b (inr (register-found l))
  ]

  -- Registering the selector of `k`, where all other keys are smaller.
  pub register-IsFinal :
      (l : List (String × Selector)) → key_lt k k ≡ false → AllEarly l → IsFinal (register k f l)
  register-IsFinal l h hs = record {
    all_early = register-AllEarly k f l (IsEarly-self h) hs;
    registered = register-found l;
  }
