-- ===== src/Loading/Search.antt =====
-- The search of `get` (module.py) for the class of a module.
use blankie.Prelude.{
  String, List, [], ◌∷◌, ◌++◌, true, ◌≡◌, refl, sym, ap, subst, some, none, Option, inl, inr,
  Bool-cases, arith, if◌then◌else◌,
}
use blankie.Spec.{str_eq-eq}
use blankie.Loading.{
  Class, Tree, node, Trees, nil, cons, has_name, is_name, search, search_all, last,
}

-- The classes below a class, each before its subclasses.
mutual
  pub preorder : Tree → List Class
  preorder (node c ts) = c ∷ preorder_all ts

  pub preorder_all : Trees → List Class
  preorder_all nil = []
  preorder_all (cons t ts) = preorder t ++ preorder_all ts

unfoldable pub named : String → List Class → List Class
named n [] = []
named n (c ∷ cs) = let rest = named n cs in if has_name n c then c ∷ rest else rest

named-append : (n : String) (cs ds : List Class) → named n (cs ++ ds) ≡ named n cs ++ named n ds
unfolding named
named-append n [] ds = refl
named-append n (c ∷ cs) ds = ground (arith, named-append n cs ds)

-- The search lists the classes with the name, in the order of a walk that visits a class before its
-- subclasses.
mutual
  unfolding preorder search named

  pub search-preorder : (n : String) (t : Tree) → search n t ≡ named n (preorder t)
  search-preorder n (node c ts) = ground (arith, search_all-preorder n ts)

  search_all-preorder : (n : String) (ts : Trees) → search_all n ts ≡ named n (preorder_all ts)
  search_all-preorder n nil = refl
  search_all-preorder n (cons t ts) =
      rw (search-preorder n t)
        (rw (search_all-preorder n ts) (sym (named-append n (preorder t) (preorder_all ts))))

is_name-eq : (n : String) (o : Option String) → is_name n o ≡ true → o ≡ some n
is_name-eq n none h = cc
is_name-eq n (some m) h = ap some (str_eq-eq h)

abbrev AllNamed : String → List Class → Type 0
AllNamed n [] = Unit {0}
AllNamed n (c ∷ cs) = (c.name ≡ some n) × AllNamed n cs

named-AllNamed : (n : String) (cs : List Class) → AllNamed n (named n cs)
unfolding named
named-AllNamed n [] = tt
named-AllNamed n (c ∷ cs) = elim (Bool-cases (has_name n c)) [
  | inl e ↦ rw e (is_name-eq n c.name e, named-AllNamed n cs)
  | inr e ↦ rw e (named-AllNamed n cs)
]

last-AllNamed :
    (n : String) (cs : List Class)
    → AllNamed n cs
    → (c : Class) → last cs ≡ some c
    → c.name ≡ some n
unfolding last
last-AllNamed n [] h c e = cc
last-AllNamed n (d ∷ cs) (a, h) c e = pick (last cs) (last-AllNamed n cs h) e
  where
    pick :
        (r : Option Class)
        → ((x : Class) → r ≡ some x → x.name ≡ some n)
        → (elim r [ none ↦ some d | some x ↦ some x ]) ≡ some c
        → c.name ≡ some n
    pick none later q = ground (arith, a, q)
    pick (some x) later q = later c q

-- The class that the search chooses has the name that was looked for.
pub last-search : (n : String) (t : Tree) {c : Class} → last (search n t) ≡ some c → c.name ≡ some n
last-search n t {c} e =
    last-AllNamed n (search n t)
      (subst (AllNamed n) (sym (search-preorder n t)) (named-AllNamed n (preorder t))) c e
