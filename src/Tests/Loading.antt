-- ===== src/Tests/Loading.antt =====
-- The loading of modules and the handshake with the bus at concrete states.
use blankie.Prelude.{ℕ, String, List, [], ◌∷◌, true, false, ◌≡◌, ◌≢◌, ◌⊎◌, refl, none, some}
use blankie.Exec.{exception, return, raise, pure, modify}
use blankie.Spec.{str_eq}
use blankie.Packets.{challenge, hello}
use blankie.BusServer.{BusServer, Handler, enter, handle_packet as receive}
use blankie.BusClient.{BusClient, opened, handle_packet}
use blankie.BusClient.Handshake.{handshake}
use blankie.Loading.{Class, node, nil, cons, Instance, Loader, Process, get}
use blankie.Loading.Filed.{IsTyped}
use blankie.Loading.Typed.{KeepsTyped, get-IsTyped}
use blankie.Tests.Manager.{spec}
use blankie.Tests.Idle.{daemon, quiet}

abbrev class_of : ℕ → String → Class
class_of i n = record { id = i; name = some n }

-- `Module` with a class for `xss`; the files add one for `tty_idle`.
abbrev loader : Loader ℕ
loader = record {
  classes = node (record { id = 0; name = none }) (cons (node (class_of 1 "xss") nil) nil);
  instances = (spec "xss", record { class = class_of 1 "xss"; params = (spec "xss").params }) ∷ [];
  module_dirs = "/home/u/.config/blankie/modules" ∷ "/usr/lib/blankie/modules" ∷ [];
  world = 0;
}

abbrev define_tty_idle : Loader ℕ → Loader ℕ
define_tty_idle l = record l {
  classes =
      node (record { id = 0; name = none })
        (cons (node (class_of 1 "xss") nil) (cons (node (class_of 2 "tty_idle") nil) nil));
}

abbrev process : Process ℕ
process = record {
  exists = λ file. str_eq file "/usr/lib/blankie/modules/tty_idle.py";
  exec_module = λ file. modify define_tty_idle;
  init = λ c params. pure tt;
}

process-KeepsTyped : KeepsTyped process
process-KeepsTyped = record { exec_keeps = λ file l h. h; init_keeps = λ s c l name h. h }

get-IsTyped_example :
    let s = spec "tty_idle" in
    let after = (get process s loader).1 in
    IsTyped after.instances
    × (((x : Instance) × ((get process s loader).0 ≡ return x)
          × (x.class.name ≡ some "tty_idle")
          × (get process s after ≡ (return x, after)))
        ⊎ ((x : Instance) → (get process s loader).0 ≢ return x))
get-IsTyped_example = get-IsTyped process process-KeepsTyped (spec "tty_idle") loader (refl, tt)

abbrev hash : List ℕ → List ℕ
hash xs = 0 ∷ xs

abbrev bus_key : List ℕ
bus_key = 5 ∷ []

abbrev client_key : List ℕ
client_key = 6 ∷ []

abbrev newcomer : Handler
newcomer = record { instance_id = none; challenge = 1 ∷ []; connected = true; broken = false }

abbrev hub : BusServer
hub = record { handlers = λ k. newcomer; clients = []; bus_key = some bus_key; sent = [] }

-- A client with another key than the bus.
abbrev client : BusClient
client = record {
  instance_id = "lap";
  running = true;
  socket = opened false;
  has_thread = true;
  sent = [];
  calls = [];
  daemon = record daemon { world = record daemon.world { bus_key = some client_key } };
}

handshake_example :
    let p = hello (some (0 ∷ 6 ∷ 1 ∷ [])) "lap" in
    (handle_packet hash (λ s q. quiet) 3 (challenge (1 ∷ [])) client
      ≡ (return tt, record client { sent = p ∷ [] }))
    × ((client_key ≡ bus_key) × (receive hash 0 p hub ≡ enter 0 "lap" hub)
        ⊎ (client_key ≢ bus_key) × (receive hash 0 p hub ≡ (raise (exception "Exception"), hub)))
handshake_example =
    handshake hash (λ s q. quiet) 0 3 bus_key client_key client hub refl refl refl refl (λ e. cc e)
