-- ===== src/Tests/Manager.antt =====
-- The module manager (module.py) with modules that log what happens to them.
use blankie.Prelude.{
  String, List, [], ◌∷◌, ◌++◌, Bool, true, false, ◌≡◌, ◌≢◌, refl, some, arith, if◌then◌else◌,
}
use blankie.Exec.{Exec, exception, return, out_of_fuel, pure, throw, modify}
use blankie.Spec.{Spec, str_eq, nil, contains, unique, spec_eq, erase_at, insert_at, remove}
use blankie.Manager.{
  Manager, Classes, start_stop_modules, rounds, do_one_module, try_wanted, stop_one, start_one,
  first_missing, last_unwanted,
}
use blankie.Manager.Update.{collect, add}
use blankie.Manager.Contract.{IsSynchronized, rounds-IsSynchronized, start_stop_modules-same}
use blankie.Manager.Termination.{IsTame, start_stop_modules_ends}
use blankie.Manager.Reliable.{IsReliable, start_stop_modules_returns}
use blankie.Manager.Ordered.{Within, IsOrdered}
use blankie.Manager.Order.{
  IsDistinct, wanted-IsOrdered, first_missing-dependencies, last_unwanted-dependents,
}

abbrev pub spec : String → Spec
spec name = record { name = name; params = nil }

abbrev log : Spec → Manager (List Spec) → Manager (List Spec)
log s m = record m { world = m.world ++ s ∷ [] }

abbrev needs : Spec → List Spec
needs s =
    if str_eq s.name "logind"
    then spec "dbus" ∷ []
    else if str_eq s.name "dbus"
    then spec "glib" ∷ []
    else []

abbrev stuck_stop : Bool → Spec → Exec (Manager (List Spec)) (Unit {0})
stuck_stop true s = throw (exception "CalledProcessError")
stuck_stop false s = modify (log s)

abbrev logging : Classes (List Spec)
logging = record {
  get = λ s. pure tt;
  start = λ s. modify (log s);
  stop = λ s. stuck_stop (str_eq s.name "stuck") s;
  reconfigure = λ r s. pure (str_eq r.name "xset");
  rekey = λ r s w. w;
  dependencies = needs;
  selectors = λ w. [];
}

abbrev before : Manager (List Spec)
before = record {
  running = spec "xss" ∷ spec "power" ∷ [];
  wanted = spec "xss" ∷ spec "lock" ∷ [];
  world = [];
}

abbrev after : Manager (List Spec)
after = record {
  running = spec "xss" ∷ spec "lock" ∷ [];
  wanted = spec "xss" ∷ spec "lock" ∷ [];
  world = spec "power" ∷ spec "lock" ∷ [];
}

program : Unit {0}
unfolding start_stop_modules rounds do_one_module try_wanted stop_one start_one contains erase_at
    insert_at remove spec_eq collect add unique last_unwanted first_missing
program = tt

before-after : start_stop_modules logging 3 before ≡ (return tt, after)
unfolding program
before-after = refl

start_stop_modules-same_example :
    contains after.running (spec "lock") ≡ contains after.wanted (spec "lock")
start_stop_modules-same_example =
    start_stop_modules-same logging 3 before after before-after (spec "lock")

abbrev jammed : Manager (List Spec)
jammed = record { running = spec "stuck" ∷ []; wanted = spec "lock" ∷ []; world = [] }

abbrev jammed_after : Manager (List Spec)
jammed_after = record {
  running = spec "stuck" ∷ spec "lock" ∷ [];
  wanted = spec "lock" ∷ [];
  world = spec "lock" ∷ [];
}

jammed-rounds : rounds logging 3 [] jammed ≡ (return (spec "stuck" ∷ []), jammed_after)
unfolding program
jammed-rounds = refl

rounds-IsSynchronized_example :
    IsSynchronized (spec "stuck" ∷ []) jammed_after.running jammed_after.wanted
rounds-IsSynchronized_example =
    rounds-IsSynchronized logging 3 [] (spec "stuck" ∷ []) jammed jammed_after jammed-rounds

logging-IsTame : IsTame logging
logging-IsTame = record {
  get_ends = λ s w h. cc;
  reconfigure_ends = λ r s w h. cc;
  start_ends = λ s m h. cc;
  stop_ends = λ s m h. ground arith;
  start_adds =
      λ s m. record { wanted = refl; missing_le = omega arith; extra_le = λ e. omega arith };
  stop_adds = λ s m. ground arith;
}

start_stop_modules_ends_example : (start_stop_modules logging 5 before).0 ≢ out_of_fuel
start_stop_modules_ends_example =
    start_stop_modules_ends logging logging-IsTame 5 before (omega arith)

-- The same modules, where none of them is stuck.
abbrev calm : Classes (List Spec)
calm = record logging { stop = λ s. modify (log s) }

calm-IsTame : IsTame calm
calm-IsTame = record {
  get_ends = λ s w h. cc;
  reconfigure_ends = λ r s w h. cc;
  start_ends = λ s m h. cc;
  stop_ends = λ s m h. cc;
  start_adds =
      λ s m. record { wanted = refl; missing_le = omega arith; extra_le = λ e. omega arith };
  stop_adds =
      λ s m. record { wanted = refl; missing_le = omega arith; extra_le = λ e. omega arith };
}

calm-IsReliable : IsReliable calm
calm-IsReliable = record {
  get_quiet = λ s w e h. cc;
  reconfigure_quiet = λ r s w e h. cc;
  start_quiet = λ s m e h. cc;
  stop_quiet = λ s m e h. cc;
}

start_stop_modules_returns_example :
    let (r, n) = start_stop_modules calm 5 before in
    (r ≡ return tt) × ((s : Spec) → contains n.running s ≡ contains n.wanted s)
start_stop_modules_returns_example =
    start_stop_modules_returns calm calm-IsReliable calm-IsTame 5 before (omega arith)

abbrev with_needs : List Spec
with_needs = spec "glib" ∷ spec "dbus" ∷ spec "logind" ∷ spec "glib" ∷ []

collect-logind :
    collect (add logging 3) (spec "logind" ∷ spec "glib" ∷ []) [] ≡ (return with_needs, [])
unfolding program
collect-logind = refl

wanted-IsOrdered_example :
    IsOrdered needs [] (unique with_needs)
    × Within (spec "logind" ∷ spec "glib" ∷ []) (unique with_needs)
wanted-IsOrdered_example =
    wanted-IsOrdered logging 3 (spec "logind" ∷ spec "glib" ∷ []) [] [] with_needs collect-logind

abbrev bus_stack : List Spec
bus_stack = spec "glib" ∷ spec "dbus" ∷ spec "logind" ∷ []

bus_stack-IsOrdered : IsOrdered needs [] bus_stack
unfolding contains spec_eq
bus_stack-IsOrdered = (λ s m. cc, (λ s m. m, (λ s m. ground (arith, m), tt)))

first_missing-logind :
    first_missing (spec "glib" ∷ spec "dbus" ∷ []) bus_stack ≡ some (spec "logind")
unfolding program
first_missing-logind = refl

first_missing-dependencies_example : Within (needs (spec "logind")) (spec "glib" ∷ spec "dbus" ∷ [])
first_missing-dependencies_example =
    first_missing-dependencies needs (spec "glib" ∷ spec "dbus" ∷ []) bus_stack (spec "logind")
      bus_stack-IsOrdered first_missing-logind

bus_stack-IsDistinct : IsDistinct bus_stack
unfolding contains spec_eq
bus_stack-IsDistinct = (refl, (refl, (refl, tt)))

-- `logind` has failed to stop, and `dbus` is next.
last_unwanted-dbus : last_unwanted [] (spec "logind" ∷ []) 0 bus_stack ≡ some (1, spec "dbus")
unfolding program
last_unwanted-dbus = refl

last_unwanted-dependents_example : contains (spec "logind" ∷ []) (spec "logind") ≡ true
unfolding contains spec_eq
last_unwanted-dependents_example =
    last_unwanted-dependents needs bus_stack [] (spec "logind" ∷ []) 1 (spec "dbus") (spec "logind")
      bus_stack-IsOrdered bus_stack-IsDistinct (λ w m d n. cc) last_unwanted-dbus refl refl
