-- ===== src/EventLoop.antt =====
-- daemon.py, the class EventLoop: a queue of tasks that other threads and the tasks themselves fill,
-- and that the main thread empties.
pub mod Fifo
use blankie.Prelude.{List, [], ◌∷◌, ◌++◌, Bool, true, false, ◌&&◌, ◌≡◌}
use blankie.Exec.{Exec}

-- The attributes of the loop, and the rest of the daemon.
pub record EventLoop (T W : Type 0) : Type 0 where
  pub queue : List T
  pub stopping : Bool
  pub world : W

abbrev pub is_empty : {T : Type 0} → List T → Bool
is_empty [] = true
is_empty (t ∷ ts) = false

module _ {T W : Type 0} where
  -- `call` puts a task, with its arguments, at the end of the queue.
  unfoldable pub call : T → EventLoop T W → EventLoop T W
  call t x = record x { queue = x.queue ++ t ∷ [] }

  -- A sequence of calls.
  abbrev pub call_all : List T → EventLoop T W → EventLoop T W
  unfolding call
  call_all [] x = x
  call_all (t ∷ ts) x = call_all ts (call t x)

  -- The loop's condition fails: it exits.
  unfoldable pub exits : EventLoop T W → Bool
  exits x = x.stopping && is_empty x.queue

module _ {T W : Type 0} (perform : T → Exec (EventLoop T W) (Unit {0})) where
  -- The body of the loop for the task that `queue.get` returned. An exception of the task is logged
  -- and dropped.
  unfoldable pub turn : T → List T → EventLoop T W → EventLoop T W
  turn t ts x = (perform t (record x { queue = ts })).1

  -- `calls t x` are the tasks that the task `t`, performed at `x`, passes to `call`.
  module _ (calls : T → EventLoop T W → List T) where
    -- What happens to the loop: another thread calls `call`, or the main thread takes a task. (With
    -- an empty queue `queue.get` blocks: only a call can follow.) `put` are all tasks that were
    -- passed to `call` meanwhile, by other threads and by tasks, and `done` those performed.
    pub data Happens (x : EventLoop T W) : (put done : List T) → EventLoop T W → Type 0 where
      start : Happens x [] [] x
      called :
          {y : EventLoop T W} {put done : List T}
          → Happens x put done y
          → (t : T) → Happens x (put ++ t ∷ []) done (call t y)
      took :
          {y : EventLoop T W} {put done : List T} {t : T} {ts : List T}
          → Happens x put done y
          → y.queue ≡ t ∷ ts
          → Happens x (put ++ calls t (record y { queue = ts })) (done ++ t ∷ []) (turn t ts y)
