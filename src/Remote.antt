-- ===== src/Remote.antt =====
-- The modules that speak on the bus: modules/session/remote.py, modules/remote_receiver.py,
-- modules/remote_sender.py and `handle_packet` of modules/bus_client.py.
pub mod Disconnect
pub mod Schedule
pub mod View
use blankie.Prelude.{
  ℕ, zero, suc, String, List, [], ◌∷◌, ◌++◌, Bool, true, false, not, ◌&&◌, ◌||◌, Option, none, some,
  if◌then◌else◌, get_elem?,
}
use blankie.Exec.{Exec, exception, return, pure, throw, diverge, gets, modify, ◌>>=◌, ◌>>◌}
use blankie.Spec.{Spec, str_eq, contains, nil, cons, text}
use blankie.World.{
  Moment, Reading, nan, since, Session, remote, World, Sensors, get_session, put_session, sensing,
}
use blankie.Idle.{before, get_idle_since}
use blankie.Manager.{on_world}
use blankie.Session.{Daemon, specs_of, attach, detach, lock as lock_system, unlock as unlock_system}
use blankie.Packets.{
  Payload, idle_since, lock, unlock, other, Packet, challenge, welcome, join, leave, message,
  disconnect, Request, hello, tell,
}

-- `("session.remote", instance_id)`
abbrev pub remote_spec : String → Spec
remote_spec id = record { name = "session.remote"; params = cons (text id) nil }

-- `[spec for spec in session_specs if spec[0] == 'session.remote']`
unfoldable pub remote_specs : List Spec → List Spec
remote_specs [] = []
remote_specs (s ∷ ss) =
    let rest = remote_specs ss in if str_eq s.name "session.remote" then s ∷ rest else rest

module _ (update : Exec Daemon (Unit {0})) where
  abbrev lock_unless : Bool → Exec Daemon (Unit {0})
  lock_unless true = pure tt
  lock_unless false = lock_system update

  abbrev unlock_if : Bool → Exec Daemon (Unit {0})
  unlock_if true = unlock_system update
  unlock_if false = pure tt

  -- `RemoteSession.bus_packet` of the session `s`. It reads the message, and not from whom it is.
  unfoldable pub session_packet : Spec → Packet → Exec Daemon (Unit {0})
  session_packet s (message id (idle_since t)) =
      on_world (sensing (modify (put_session s (remote t))))
  session_packet s (message id lock) = λ m. lock_unless m.world.locked m
  session_packet s (message id unlock) = λ m. unlock_if m.world.locked m
  session_packet s p = pure tt

  unfoldable pub detach_all : List Spec → Exec Daemon (Unit {0})
  detach_all [] = pure tt
  detach_all (s ∷ ss) = detach update s >> detach_all ss

  -- `RemoteReceiverModule.bus_packet`
  unfoldable pub receive : Packet → Exec Daemon (Unit {0})
  unfolding session_packet remote_specs detach_all
  receive (message id payload) =
      let s = remote_spec id in
      let introduce : Exec Daemon (Unit {0}) =
        attach update s
        >> (on_world (sensing (get_session s >>= λ _. pure tt))
            >> session_packet s (message id payload)) in
      λ m. (if contains (specs_of m) s then pure tt else introduce) m
  receive disconnect = λ m. detach_all (remote_specs (specs_of m)) m
  receive (leave id) = λ m.
      (if contains (specs_of m) (remote_spec id) then detach update (remote_spec id) else pure tt) m
  receive p = pure tt

-- `RemoteSenderModule`: what it last told, and the messages that it passed to the bus client.
pub record Sender : Type 0 where
  pub last_idle_since : Moment
  pub last_locked : Bool
  pub outbox : List Payload
  pub world : World

-- `a != b` on times.
abbrev pub differs : Moment → Moment → Bool
differs a b = before a b || before b a

abbrev pub lock_message : Bool → Payload
lock_message true = lock
lock_message false = unlock

abbrev pub tell_idle : Bool → Moment → Sender → Sender
tell_idle true t x = record x {
  outbox = x.outbox ++ idle_since (since t) ∷ [];
  last_idle_since = t;
}
tell_idle false t x = x

abbrev pub tell_locked : Bool → Bool → Sender → Sender
tell_locked true b x = record x { outbox = x.outbox ++ lock_message b ∷ []; last_locked = b }
tell_locked false b x = x

abbrev pub unlike : Bool → Bool → Bool
unlike true b = not b
unlike false b = b

abbrev pub on_sensors {ℓ} : {A : Type ℓ} → Exec World A → Exec Sender A
on_sensors act x = let (r, w) = act x.world in (r, record x { world = w })

-- The method `update`, with what `get_idle_since` returned.
abbrev pub tell_changes : Bool → Moment → Exec Sender (Unit {0})
tell_changes force t = do
  modify (λ x. tell_idle (force || differs x.last_idle_since t) t x)
  modify (λ x.
      tell_locked (force && x.world.locked || unlike x.last_locked x.world.locked) x.world.locked x)

unfoldable pub sender_update : (force : Bool) → Exec Sender (Unit {0})
sender_update force = on_sensors (sensing get_idle_since) >>= tell_changes force

-- `RemoteSenderModule.bus_packet`
unfoldable pub sender_packet : Packet → Exec Sender (Unit {0})
unfolding sender_update
sender_packet (welcome ids) = sender_update true
sender_packet (join id) = sender_update true
sender_packet p = pure tt

-- `BusClientModule.handle_packet`: a challenge is answered, and any other packet is given to each
-- running module. The list of running modules may grow and shrink meanwhile, and the loop goes by
-- the position in it; the fuel bounds the positions visited. `bus_packet` is the method of a
-- module's instance.
module _ (bus_packet : Spec → Packet → Exec Daemon (Unit {0})) where
  unfoldable pub deliver : ℕ → ℕ → Packet → Exec Daemon (Unit {0})
  deliver zero i p = diverge
  deliver (suc fuel) i p =
      let rest = deliver fuel (suc i) p in λ m. deliver_to (get_elem? m.running i) rest m
    where
      deliver_to : Option Spec → Exec Daemon (Unit {0}) → Exec Daemon (Unit {0})
      deliver_to none rest = pure tt
      deliver_to (some s) rest = bus_packet s p >> rest

-- The answer to a challenge.
abbrev pub answer : (sha256 : List ℕ → List ℕ) → String → Option (List ℕ) → List ℕ → Option Request
answer sha256 id none c = none
answer sha256 id (some key) c = some (hello (some (sha256 (key ++ c))) id)
