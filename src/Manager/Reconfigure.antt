-- ===== src/Manager/Reconfigure.antt =====
-- Step 1 of one round of `start_stop_modules` (module.py): what its search finds, and that it leaves
-- the lists alone if it finds nothing.
use blankie.Prelude.{
  ℕ, suc, ◌+◌, List, [], ◌∷◌, true, false, ◌≡◌, refl, some, arith, subst, ◌∙◌, get_elem?, set, ◌⊎◌,
  inl, inr,
}
use native.Mathlib.Nat.{zero-add, add-zero, add-suc, suc-add}
use blankie.Exec.{return}
use blankie.Spec.{Spec, contains, spec_eq_refl}
use blankie.Manager.{Manager, Classes, same_name, try_running, try_wanted}

-- A running module that is not wanted, and a wanted one of its name that is not running.
pub record Pair (running wanted : List Spec) (i : ℕ) (r w : Spec) : Type 0 where
  pub at : get_elem? running i ≡ some r
  pub same : same_name w r ≡ true
  pub unwanted : contains wanted r ≡ false
  pub is_wanted : contains wanted w ≡ true
  pub missing : contains running w ≡ false

module _ {W : Type 0} (classes : Classes W) where
  -- The world aside, nothing changed.
  abbrev pub SameLists : Manager W → Manager W → Type 0
  SameLists m n = (n.running ≡ m.running) × (n.wanted ≡ m.wanted)

  try_running-false :
      (w : Spec) (i : ℕ) (rs : List Spec) (m n : Manager W)
      → try_running classes w i rs m ≡ (return false, n)
      → SameLists m n
  unfolding try_running
  try_running-false w i [] m n h = ground arith
  try_running-false w i (r ∷ rs) m n h = ground (
    arith,
    try_running-false w (suc i) rs m n,
    try_running-false w (suc i) rs
        (record m { world = (classes.reconfigure r w (classes.get r m.world).1).1 }) n,
  )

  -- What `try_running` found at the position `j` of its list.
  record Found (w : Spec) (i : ℕ) (rs : List Spec) (m n : Manager W) : Type 0 where
    j : ℕ
    r : Spec
    at : get_elem? rs j ≡ some r
    same : same_name w r ≡ true
    unwanted : contains m.wanted r ≡ false
    running : n.running ≡ set m.running (i + j) w
    wanted : n.wanted ≡ m.wanted

  abbrev after_refusal : Spec → Spec → Manager W → Manager W
  after_refusal w r m = record m { world = (classes.reconfigure r w (classes.get r m.world).1).1 }

  try_running-cons :
      (w : Spec) (i : ℕ) (r : Spec) (rs : List Spec) (m n : Manager W)
      → try_running classes w i (r ∷ rs) m ≡ (return true, n)
      → (same_name w r ≡ true)
          × (contains m.wanted r ≡ false)
          × (n.running ≡ set m.running i w)
          × (n.wanted ≡ m.wanted)
        ⊎ (try_running classes w (suc i) rs m ≡ (return true, n))
        ⊎ (try_running classes w (suc i) rs (after_refusal w r m) ≡ (return true, n))
  unfolding try_running
  try_running-cons w i r rs m n h = ground arith

  try_running-true :
      (w : Spec) (i : ℕ) (rs : List Spec) (m n : Manager W)
      → try_running classes w i rs m ≡ (return true, n)
      → Found w i rs m n
  unfolding try_running
  try_running-true w i [] m n h = cc
  try_running-true w i (r ∷ rs) m n h = elim (try_running-cons w i r rs m n h) [
    | inl (same, unwanted, running, wanted) ↦ record {
      j = 0;
      r = r;
      at = refl;
      same = same;
      unwanted = unwanted;
      running = rw add-zero running;
      wanted = wanted;
    }
    | inr (inl h') ↦ later (try_running-true w (suc i) rs m n h')
    | inr (inr h') ↦ later (try_running-true w (suc i) rs (after_refusal w r m) n h')
  ]
    where
      later : {x : W} → Found w (suc i) rs (record m { world = x }) n → Found w i (r ∷ rs) m n
      later f = record {
        j = suc f.j;
        r = f.r;
        at = f.at;
        same = f.same;
        unwanted = f.unwanted;
        running = rw (add-suc, ← suc-add) f.running;
        wanted = f.wanted;
      }

  pub try_wanted-false :
      (ws : List Spec) (m n : Manager W)
      → try_wanted classes ws m ≡ (return false, n)
      → SameLists m n
  unfolding try_wanted
  try_wanted-false [] m n h = ground arith
  try_wanted-false (w ∷ ws) m n h =
      let tried = (try_running classes w 0 m.running m).1 in
      ground (
        arith,
        try_running-false w 0 m.running m tried,
        try_wanted-false ws m n,
        try_wanted-false ws tried n,
      )

  try_wanted-cons :
      (w : Spec) (ws : List Spec) (m n : Manager W)
      → try_wanted classes (w ∷ ws) m ≡ (return true, n)
      → let (hit, tried) = try_running classes w 0 m.running m in
        (contains m.running w ≡ false) × (try_running classes w 0 m.running m ≡ (return true, n))
        ⊎ (try_wanted classes ws m ≡ (return true, n))
        ⊎ (hit ≡ return false) × (try_wanted classes ws tried ≡ (return true, n))
  unfolding try_wanted
  try_wanted-cons w ws m n h = ground arith

  -- What `try_wanted` found in its list `ws`.
  pub record Matched (ws : List Spec) (m n : Manager W) : Type 0 where
    pub i : ℕ
    pub r : Spec
    pub w : Spec
    pub at : get_elem? m.running i ≡ some r
    pub same : same_name w r ≡ true
    pub unwanted : contains m.wanted r ≡ false
    pub listed : contains ws w ≡ true
    pub missing : contains m.running w ≡ false
    pub running : n.running ≡ set m.running i w
    pub wanted : n.wanted ≡ m.wanted

  Matched-cons :
      (v : Spec) (ws : List Spec) (m k n : Manager W)
      → SameLists m k
      → Matched ws k n
      → Matched (v ∷ ws) m n
  unfolding contains
  Matched-cons v ws m k n (same_running, same_wanted) f = record {
    i = f.i;
    r = f.r;
    w = f.w;
    at = rw same_running at f.at;
    same = f.same;
    unwanted = rw same_wanted at f.unwanted;
    listed = ground (arith, f.listed);
    missing = rw same_running at f.missing;
    running = rw same_running at f.running;
    wanted = f.wanted ∙ same_wanted;
  }

  pub try_wanted-true :
      (ws : List Spec) (m n : Manager W)
      → try_wanted classes ws m ≡ (return true, n)
      → Matched ws m n
  unfolding try_wanted contains
  try_wanted-true [] m n h = cc
  try_wanted-true (w ∷ ws) m n h =
      let tried = (try_running classes w 0 m.running m).1 in
      elim (try_wanted-cons w ws m n h) [
        | inl (missing, hit) ↦
            let f = try_running-true w 0 m.running m n hit in
            record {
              i = f.j;
              r = f.r;
              w = w;
              at = f.at;
              same = f.same;
              unwanted = f.unwanted;
              listed = rw (spec_eq_refl w);
              missing = missing;
              running = subst (λ j. n.running ≡ set m.running j w) (zero-add f.j) f.running;
              wanted = f.wanted;
            }
        | inr (inl h') ↦ Matched-cons w ws m m n (refl, refl) (try_wanted-true ws m n h')
        | inr (inr (miss, h')) ↦
            Matched-cons w ws m tried n
              (try_running-false w 0 m.running m tried (λ i. (miss i, tried)))
              (try_wanted-true ws tried n h')
      ]
