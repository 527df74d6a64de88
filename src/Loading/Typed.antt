-- ===== src/Loading/Typed.antt =====
-- Instances are of the class that their spec names (module.py).
use blankie.Prelude.{
  String, List, [], ◌∷◌, ◌≡◌, refl, sym, ◌∙◌, ap, subst₂, ◌⊎◌, ◌≢◌, some, none, Option, inl, inr,
  map,
}
use blankie.Exec.{return, gets, >>=-eq-return, >>=_keeps, return-eq, Outcome-cases}
use blankie.Spec.{Spec}
use blankie.Loading.{
  Class, Instance, Loader, Process, find, search, last, module_file, first_existing, run_file,
  load_module, find_classes, load_if_missing, instantiate, create, known_or_new, get,
}
use blankie.Loading.Search.{last-search}
use blankie.Loading.Filed.{IsTyped, find-put, put-IsTyped, find-IsTyped}

-- Running a file and constructing an instance leave no instance under the spec of another module's
-- class: they may themselves call `get`.
pub record KeepsTyped {W : Type 0} (process : Process W) : Type 0 where
  pub exec_keeps :
      (file : String) (l : Loader W)
      → IsTyped l.instances
      → IsTyped (process.exec_module file l).1.instances
  pub init_keeps :
      (s : Spec) (c : Class) (l : Loader W)
      → c.name ≡ some s.name
      → IsTyped l.instances
      → IsTyped (process.init c s.params l).1.instances

module _ {W : Type 0} (process : Process W) (keeps : KeepsTyped process) where
  abbrev Good : Loader W → Type 0
  Good l = IsTyped l.instances

  load_module-IsTyped : (n : String) (l : Loader W) → Good l → Good (load_module process n l).1
  unfolding load_module
  load_module-IsTyped n l h =
      go (first_existing process.exists (map (λ dir. module_file dir n) l.module_dirs))
    where
      go : (file : Option String) → Good (run_file process file l).1
      go none = h
      go (some f) = keeps.exec_keeps f l h

  find_classes-IsTyped : (n : String) (l : Loader W) → Good l → Good (find_classes process n l).1
  unfolding find_classes
  find_classes-IsTyped n l h = go (search n l.classes)
    where
      go : (found : List Class) → Good (load_if_missing process n found l).1
      go [] =
          >>=_keeps Good (load_module process n) (λ _. gets (λ k. search n k.classes)) l
            (load_module-IsTyped n l h) (λ _ e. load_module-IsTyped n l h)
      go (c ∷ cs) = h

  -- What the search found is what it finds afterwards.
  find_classes-search :
      (n : String) (l l' : Loader W) (cs : List Class)
      → find_classes process n l ≡ (return cs, l')
      → cs ≡ search n l'.classes
  unfolding find_classes
  find_classes-search n l l' cs e = go (search n l.classes) refl e
    where
      go :
          (found : List Class)
          → search n l.classes ≡ found
          → load_if_missing process n found l ≡ (return cs, l')
          → cs ≡ search n l'.classes
      go [] q r =
          let (_, _, r') =
            >>=-eq-return (load_module process n) (λ _. gets (λ k. search n k.classes)) l r in
          cc r'
      go (c ∷ cs) q r = sym (return-eq r) ∙ sym q ∙ ap (λ y. search n y.1.classes) r

  instantiate-IsTyped :
      (s : Spec) (o : Option Class) (l : Loader W)
      → ((c : Class) → o ≡ some c → c.name ≡ some s.name)
      → Good l
      → Good (instantiate process s o l).1
  unfolding instantiate
  instantiate-IsTyped s none l named h = h
  instantiate-IsTyped s (some c) l named h =
      let name = named c refl in
      let x : Instance = record { class = c; params = s.params } in
      let kept = keeps.init_keeps s c l name h in
      >>=_keeps Good (process.init c s.params) _ l kept
        (λ _ e. put-IsTyped (process.init c s.params l).1.instances s x kept name)

  -- What `instantiate` returns it has filed.
  instantiate-find :
      (s : Spec) (o : Option Class) (l l' : Loader W) (x : Instance)
      → instantiate process s o l ≡ (return x, l')
      → find l'.instances s ≡ some x
  unfolding instantiate
  instantiate-find s none l l' x e = cc
  instantiate-find s (some c) l l' x e =
      let y : Instance = record { class = c; params = s.params } in
      let (_, _, r) = >>=-eq-return (process.init c s.params) _ l e in
      let filed = (process.init c s.params l).1.instances in
      subst₂ (λ k z. find k s ≡ some z) (ap (λ p. p.1.instances) r) (return-eq r)
        (find-put filed s y)

  create-IsTyped : (s : Spec) (l : Loader W) → Good l → Good (create process s l).1
  unfolding create
  create-IsTyped s l h =
      let loaded = (find_classes process s.name l).1 in
      let kept = find_classes-IsTyped s.name l h in
      >>=_keeps Good (find_classes process s.name) (λ cs. instantiate process s (last cs)) l kept
        (λ cs e.
          instantiate-IsTyped s (last cs) loaded
            (λ c q.
              last-search s.name loaded.classes
                (ap last (sym (find_classes-search s.name l loaded cs (λ i. (e i, loaded)))) ∙ q))
            kept)

  create-find :
      (s : Spec) (l l' : Loader W) (x : Instance)
      → create process s l ≡ (return x, l')
      → find l'.instances s ≡ some x
  unfolding create
  create-find s l l' x e =
      let (cs, _, r) =
        >>=-eq-return (find_classes process s.name) (λ cs. instantiate process s (last cs)) l e in
      instantiate-find s (last cs) (find_classes process s.name l).1 l' x r

  known_or_new-IsTyped :
      (s : Spec) (o : Option Instance) (l : Loader W) → Good l → Good (known_or_new process s o l).1
  unfolding known_or_new
  known_or_new-IsTyped s none l h = create-IsTyped s l h
  known_or_new-IsTyped s (some x) l h = h

  known_or_new-find :
      (s : Spec) (o : Option Instance) (l l' : Loader W) (x : Instance)
      → find l.instances s ≡ o
      → known_or_new process s o l ≡ (return x, l')
      → find l'.instances s ≡ some x
  unfolding known_or_new
  known_or_new-find s none l l' x q e = create-find s l l' x e
  known_or_new-find s (some y) l l' x q e =
      ap (λ p. find p.1.instances s) (sym e) ∙ q ∙ ap some (return-eq e)

  get-known :
      (s : Spec) (l : Loader W) (x : Instance)
      → find l.instances s ≡ some x
      → get process s l ≡ (return x, l)
  unfolding get known_or_new
  get-known s l x q = ap (λ o. known_or_new process s o l) q

  -- If running module files and constructing instances file no instance under the spec of a module
  -- of another name (they may call `get` themselves), then neither does `get`, however it ends. What
  -- it returns is an instance of a class with the name in the spec, and later calls for the spec
  -- return the same instance and change nothing.
  pub get-IsTyped :
      (s : Spec) (l : Loader W)
      → IsTyped l.instances
      → let after = (get process s l).1 in
        IsTyped after.instances
        × (((x : Instance) × ((get process s l).0 ≡ return x)
              × (x.class.name ≡ some s.name)
              × (get process s after ≡ (return x, after)))
            ⊎ ((x : Instance) → (get process s l).0 ≢ return x))
  unfolding get
  get-IsTyped s l h =
      let after = (get process s l).1 in
      let typed = known_or_new-IsTyped s (find l.instances s) l h in
      (
        typed,
        elim (Outcome-cases (get process s l).0) [
          | inl (x, e) ↦
              let filed =
                known_or_new-find s (find l.instances s) l after x refl (λ i. (e i, after)) in
              inl (x, e, find-IsTyped after.instances s typed filed, get-known s after x filed)
          | inr (inl (_, e)) ↦ inr (λ x q. cc)
          | inr (inr e) ↦ inr (λ x q. cc)
        ],
      )
