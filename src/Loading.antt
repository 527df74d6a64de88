-- ===== src/Loading.antt =====
-- module.py: `get`, which makes the instance of a module spec, and `load_module`; and the search for
-- the configuration file of config.py.
pub mod Dependencies
pub mod Search
pub mod Filed
pub mod Typed
use Prim.Native.Char.{Char, code}
use Prim.Native.String.{[] as empty, ◌∷◌ as ◌◂◌, ◌++◌ as ◌^^◌}
use blankie.Prelude.{
  ℕ, String, List, [], ◌∷◌, ◌++◌, Bool, true, false, Option, none, some, ◌==◌, if◌then◌else◌, map,
}
use blankie.Exec.{Exec, user_error, exception, return, pure, throw, gets, modify, ◌>>=◌, ◌>>◌}
use blankie.Spec.{Spec, Values, str_eq, spec_eq}

-- A class object, and the name of its modules; `Module` itself has None.
pub record Class : Type 0 where
  pub id : ℕ
  pub name : Option String

-- A class with what `__subclasses__()` lists: its direct subclasses in the order of definition.
mutual
  pub data Tree : Type 0 where
    node : Class → Trees → Tree

  pub data Trees : Type 0 where
    nil : Trees
    cons : Tree → Trees → Trees

-- An instance, with its class and the parameters of its constructor or last reconfiguration.
pub record Instance : Type 0 where
  pub class : Class
  pub params : Values

-- `Module` with its subclasses, `module_instances`, `module_dirs`, and the rest of the process.
pub record Loader (W : Type 0) : Type 0 where
  pub classes : Tree
  pub instances : List (Spec × Instance)
  pub module_dirs : List String
  pub world : W

-- `p.name == module_name`
abbrev pub is_name : String → Option String → Bool
is_name name none = false
is_name name (some n) = str_eq n name

abbrev pub has_name : String → Class → Bool
has_name name c = is_name name c.name

-- The local function `search`, and its sum over the subclasses.
unfoldable mutual
  pub search : String → Tree → List Class
  search name (node c ts) = (if has_name name c then c ∷ [] else []) ++ search_all name ts

  pub search_all : String → Trees → List Class
  search_all name nil = []
  search_all name (cons t ts) = search name t ++ search_all name ts

-- `module_name.replace('.', '/')`
unfoldable pub slashes : String → String
slashes empty = empty
slashes (c ◂ s) = (if code c == 46 then "/" else c ◂ empty) ^^ slashes s

-- `module_dir + '/' + module_name.replace('.', '/') + '.py'`
unfoldable pub module_file : String → String → String
unfolding slashes
module_file dir name = dir ^^ ("/" ^^ (slashes name ^^ ".py"))

-- The first of the paths that exists.
unfoldable pub first_existing : (String → Bool) → List String → Option String
first_existing exists [] = none
first_existing exists (p ∷ ps) =
    let rest = first_existing exists ps in if exists p then some p else rest

-- `module_instances.get(spec)` and `module_instances[spec] = module`
unfoldable pub find : List (Spec × Instance) → Spec → Option Instance
find [] s = none
find ((t, x) ∷ l) s = if spec_eq t s then some x else find l s

unfoldable pub put : List (Spec × Instance) → Spec → Instance → List (Spec × Instance)
put [] s y = (s, y) ∷ []
put ((t, x) ∷ l) s y = if spec_eq t s then (t, y) ∷ l else (t, x) ∷ put l s y

-- `module_classes[-1]`
unfoldable pub last : List Class → Option Class
last [] = none
last (c ∷ cs) = elim (last cs) [ none ↦ some c | some d ↦ some d ]

-- What the process does: `exists` tells whether a file is there, `exec_module` runs a file, and
-- `init` is the constructor of a class, with the parameters that follow the name in a spec.
pub record Process (W : Type 0) : Type 0 where
  pub exists : String → Bool
  pub exec_module : String → Exec (Loader W) (Unit {0})
  pub init : Class → Values → Exec (Loader W) (Unit {0})

module _ {W : Type 0} (process : Process W) where
  abbrev run_file : Option String → Exec (Loader W) (Unit {0})
  run_file none = throw (user_error "Module not found")
  run_file (some file) = process.exec_module file

  unfoldable pub load_module : String → Exec (Loader W) (Unit {0})
  unfolding module_file first_existing
  load_module name l =
      run_file (first_existing process.exists (map (λ dir. module_file dir name) l.module_dirs)) l

  -- The search, with the module's file loaded if it finds nothing.
  abbrev load_if_missing : String → List Class → Exec (Loader W) (List Class)
  load_if_missing name [] = load_module name >> gets (λ l. search name l.classes)
  load_if_missing name (c ∷ cs) = pure (c ∷ cs)

  unfoldable pub find_classes : String → Exec (Loader W) (List Class)
  unfolding load_module search
  find_classes name l = load_if_missing name (search name l.classes) l

  -- `module_class(*module_spec[1:])`, filed under its spec.
  unfoldable pub instantiate : Spec → Option Class → Exec (Loader W) Instance
  unfolding put
  instantiate s none = throw (exception "AssertionError")
  instantiate s (some c) = do
    let x : Instance = record { class = c; params = s.params }
    process.init c s.params
    modify (λ l. record l { instances = put l.instances s x })
    pure x

  unfoldable pub create : Spec → Exec (Loader W) Instance
  unfolding find_classes instantiate last
  create s = do classes ← find_classes s.name; instantiate s (last classes)

  unfoldable pub known_or_new : Spec → Option Instance → Exec (Loader W) Instance
  unfolding create
  known_or_new s none = create s
  known_or_new s (some x) = pure x

  unfoldable pub get : Spec → Exec (Loader W) Instance
  unfolding known_or_new find
  get s l = known_or_new s (find l.instances s) l

-- A successful reconfiguration: `del module_instances[r]; module_instances[w] = module`.
unfoldable pub forget : List (Spec × Instance) → Spec → List (Spec × Instance)
forget [] s = []
forget ((t, x) ∷ l) s = let rest = forget l s in if spec_eq t s then rest else (t, x) ∷ rest

unfoldable pub rekey : {W : Type 0} → Spec → Spec → Instance → Loader W → Loader W
unfolding forget put
rekey r w x l = record l {
  instances = put (forget l.instances r) w (record x { params = w.params });
}

-- `config.load`: where modules are looked for, and the first configuration file that is there; with
-- the environment's directories and the directory of the package.
unfoldable pub set_module_dirs : {W : Type 0} → List String → String → Loader W → Loader W
set_module_dirs config_dirs package_dir l = record l {
  module_dirs = map (λ d. d ^^ "/blankie/modules") config_dirs ++ (package_dir ^^ "/modules") ∷ [];
}

unfoldable pub config_file : (String → Bool) → List String → Option String
unfolding first_existing
config_file exists config_dirs =
    first_existing exists (map (λ d. d ^^ "/blankie/config.py") config_dirs)

module _ {W : Type 0} (process : Process W) where
  -- Without a file there is only a warning.
  abbrev run_config_file : Option String → Exec (Loader W) (Unit {0})
  run_config_file none = pure tt
  run_config_file (some file) = process.exec_module file

  unfoldable pub load : List String → String → Exec (Loader W) (Unit {0})
  unfolding set_module_dirs config_file
  load config_dirs package_dir =
      modify (set_module_dirs config_dirs package_dir)
      >> run_config_file (config_file process.exists config_dirs)
