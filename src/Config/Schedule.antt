-- ===== src/Config/Schedule.antt =====
-- `get_schedule` (config.py): the noted timers, each once, in increasing order.
use blankie.Prelude.{ℕ, ◌+◌, List, [], ◌∷◌, ◌≡◌, ◌↔◌, ◌⊎◌, inl, inr, ◌≤◌, arith}
use blankie.Config.{insert_sorted, get_schedule}
use blankie.Config.Wakeup.{Noted}

-- Every element is above `low` and below the next.
abbrev pub Above : ℕ → List ℕ → Type 0
Above low [] = Unit
Above low (x ∷ xs) = (low ≤ x) × Above (x + 1) xs

Above-insert : (n low : ℕ) (xs : List ℕ) → low ≤ n → Above low xs → Above low (insert_sorted n xs)
unfolding insert_sorted
Above-insert n low [] h a = (h, tt)
Above-insert n low (x ∷ xs) h a = ground (arith, Above-insert n (x + 1) xs)

Noted-insert : (n m : ℕ) (xs : List ℕ) → Noted m (insert_sorted n xs) ↔ ((m ≡ n) ⊎ Noted m xs)
unfolding insert_sorted
Noted-insert n m [] = (λ h. h, λ h. h)
Noted-insert n m (x ∷ xs) = ground (arith, Noted-insert n m xs)

-- The schedule is strictly increasing, and holds the timers that were noted and no others.
get_schedule-sorted :
    (timers : List ℕ)
    → Above 0 (get_schedule timers) × ((n : ℕ) → Noted n (get_schedule timers) ↔ Noted n timers)
unfolding get_schedule
get_schedule-sorted [] = (tt, λ n. (λ h. h, λ h. h))
get_schedule-sorted (t ∷ ts) =
    let (above, same) = get_schedule-sorted ts in
    (
      Above-insert t 0 (get_schedule ts) (omega arith) above,
      λ n.
          let ins = Noted-insert t n (get_schedule ts) in
          (
            λ h. elim (ins.0 h) [ inl e ↦ inl e | inr m ↦ inr ((same n).0 m) ],
            λ h. ins.1 (elim h [ inl e ↦ inl e | inr m ↦ inr ((same n).1 m) ]),
          ),
    )
