-- ===== src/Logging/Verbosity.antt =====
-- What BLANKIE_VERBOSE (logging.py) lets through.
use blankie.Prelude.{
  ℕ, zero, suc, ◌+◌, ◌-◌, ◌≢◌, ◌≤◌, String, List, [], ◌∷◌, true, false, ◌≡◌, refl, sym, ap, ◌∙◌,
  Option, none, some, arith, leb, get_elem?, inl, inr, Bool-cases,
}
use blankie.Prelude.Int.{ℤ, pos, negsuc, pos_part, neg_part, ◌+ℤ◌, ◌≤ℤ◌}
use blankie.Exec.{return}
use blankie.Logging.{
  line_of, Log, Piece, levels, at_index, configure, int, log, chosen_level, leveled, or_default,
  default_format,
}

abbrev AllAtMost : ℕ → List ℕ → Type 0
AllAtMost a [] = Unit
AllAtMost a (b ∷ l) = (b ≤ a) × AllAtMost a l

abbrev IsDescending : List ℕ → Type 0
IsDescending [] = Unit
IsDescending (a ∷ l) = AllAtMost a l × IsDescending l

none-ne-some : {k : ℕ} → ◌≡◌ {A = Option ℕ} none (some k) → ⊥
none-ne-some e = cc

get_elem?-AllAtMost :
    (a : ℕ) (l : List ℕ) (j k : ℕ) → AllAtMost a l → get_elem? l j ≡ some k → k ≤ a
get_elem?-AllAtMost a [] j k h e = absurd (none-ne-some e)
get_elem?-AllAtMost a (b ∷ l) zero k (h, hs) e = ground arith
get_elem?-AllAtMost a (b ∷ l) (suc j) k (h, hs) e = get_elem?-AllAtMost a l j k hs e

get_elem?-IsDescending :
    (l : List ℕ) (i j m k : ℕ)
    → IsDescending l
    → i ≤ j
    → get_elem? l i ≡ some m
    → get_elem? l j ≡ some k
    → k ≤ m
get_elem?-IsDescending [] i j m k h le e e' = absurd (none-ne-some e)
get_elem?-IsDescending (a ∷ l) zero zero m k h le e e' = ground arith
get_elem?-IsDescending (a ∷ l) zero (suc j) m k h le e e' =
    let at_most = get_elem?-AllAtMost a l j k h.0 e' in ground arith
get_elem?-IsDescending (a ∷ l) (suc i) zero m k h le e e' = ground arith
get_elem?-IsDescending (a ∷ l) (suc i) (suc j) m k h le e e' =
    get_elem?-IsDescending l i j m k h.1 (omega arith) e e'

levels-IsDescending : IsDescending levels
levels-IsDescending = ground arith

-- From -4 on, the index is not negative.
index_at :
    (v : ℤ) → negsuc 3 ≤ℤ v → (n : ℕ) × ((pos 4 +ℤ v ≡ pos n) × (n + neg_part v ≡ 4 + pos_part v))
unfolding ◌+ℤ◌
index_at (pos n) h = (4 + n, (ground arith, ground arith))
index_at (negsuc n) h = (3 - n, (ground arith, ground arith))

-- What `configure` makes of the level.
record Configured (format : Option (List Piece)) (n : ℕ) (x : Log) : Type 0 where
  pub level : get_elem? levels n ≡ some x.level
  pub same_format : x.format ≡ or_default default_format format
  pub empty : x.lines ≡ []

configure-Configured :
    (format : Option (List Piece)) (s : String) (v : ℤ) (n : ℕ) (x : Log)
    → int s ≡ some v
    → pos 4 +ℤ v ≡ pos n
    → configure format (some s) ≡ return x
    → Configured format n x
unfolding configure at_index
configure-Configured format s v n x read index e =
    with_level (get_elem? levels n) refl (sym made ∙ e)
  where
    f : List Piece
    f = or_default default_format format

    made : configure format (some s) ≡ leveled f (get_elem? levels n)
    made = ap (chosen_level f) read ∙ ap (λ i. leveled f (at_index levels i)) index

    with_level :
        (o : Option ℕ) → get_elem? levels n ≡ o → leveled f o ≡ return x → Configured format n x
    with_level none h k = cc
    with_level (some l) h k = record {
      level = ground arith;
      same_format = ground arith;
      empty = ground arith;
    }

log-shown :
    (logger : String) (l : ℕ) (text : String) (x : Log)
    → leb x.level l ≡ true
    → x.lines ≡ []
    → (log logger l text x).1.lines ≡ line_of logger l text x.format ∷ []
unfolding log
log-shown logger l text x shown empty = rw (shown, empty)

log-hidden :
    (logger : String) (l : ℕ) (text : String) (x : Log)
    → leb x.level l ≡ false
    → (log logger l text x).1.lines ≡ x.lines
unfolding log
log-hidden logger l text x hidden = rw hidden

-- With a verbosity of -4 or more, in a format and for a logger: what is logged at a verbosity is
-- logged, as the same lines, at every greater verbosity that is accepted.
pub log-monotone :
    (format : Option (List Piece)) (s t : String) (v w : ℤ) (x y : Log)
    → int s ≡ some v
    → int t ≡ some w
    → negsuc 3 ≤ℤ v
    → v ≤ℤ w
    → configure format (some s) ≡ return x
    → configure format (some t) ≡ return y
    → (logger : String) (l : ℕ) (text : String) → (log logger l text x).1.lines ≢ []
    → (log logger l text y).1.lines ≡ (log logger l text x).1.lines
log-monotone format s t v w x y read_s read_t low le made_x made_y logger l text logged =
    let (i, (p, at_i)) = index_at v low in
    let (j, (q, at_j)) = index_at w (omega arith) in
    let cx = configure-Configured format s v i x read_s p made_x in
    let cy = configure-Configured format t w j y read_t q made_y in
    let lower =
      get_elem?-IsDescending levels i j x.level y.level levels-IsDescending (omega arith) cx.level
        cy.level in
    elim (Bool-cases (leb x.level l)) [
      | inl shown ↦
          let shown_y : leb y.level l ≡ true = ground arith in
          log-shown logger l text y shown_y cy.empty
          ∙ ap (λ f. line_of logger l text f ∷ []) (cy.same_format ∙ sym cx.same_format)
          ∙ sym (log-shown logger l text x shown cx.empty)
      | inr hidden ↦ absurd (logged (log-hidden logger l text x hidden ∙ cx.empty))
    ]
