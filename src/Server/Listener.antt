-- ===== src/Server/Listener.antt =====
-- modules/server.py: the thread that accepts connections, the threads that read a command each, and
-- how the server stops.
pub mod Stopping
use blankie.Prelude.{
  ℕ, List, [], ◌∷◌, ◌++◌, Bool, true, false, not, ◌&&◌, ◌≡◌, Option, none, some, ◌==◌,
  if◌then◌else◌,
}
use blankie.Exec.{Exec, user_error, return, pure, throw, modify, ◌>>=◌, ◌>>◌}
use blankie.Server.{Command}

-- What a handler passes on to the main thread.
pub data Errand : Type 0 where
  wake_lock : Errand
  command : Command → Errand

-- What a connection sends before its first newline or its end.
pub data Line : Type 0 where
  unterminated : Line
  not_json : Line
  shutdown_ping : Line
  errand : Errand → Line

abbrev pub member : ℕ → List ℕ → Bool
member r [] = false
member r (k ∷ ks) = let rest = member r ks in if k == r then true else rest

abbrev pub remove_request : ℕ → List ℕ → List ℕ
remove_request r [] = []
remove_request r (k ∷ ks) = let rest = remove_request r ks in if k == r then ks else k ∷ rest

-- The attributes `stopping` and `requests` of the `SocketServer`, whether `self.server` is set, and
-- whether the loop of the server thread runs. Connections have numbers: the accepted ones, those
-- whose handler has not read its line yet, those whose handler has found that the server is not
-- stopping, with what it will pass on, and those that were shut down. `calls` is what the handlers
-- passed on to the main thread.
pub record Listener : Type 0 where
  pub has_server : Bool
  pub stopping : Bool
  pub accepting : Bool
  pub requests : List ℕ
  pub accepted : List ℕ
  pub reading : List ℕ
  pub checked : List (ℕ × Errand)
  pub interrupted : List ℕ
  pub calls : List (ℕ × Errand)

-- `start`, after the stale socket is removed.
unfoldable pub start : Listener → Listener
start x = record x { has_server = true; stopping = false; accepting = true; requests = [] }

-- `server_reader` of the connection `r`, which reads `line`, up to its test of `server.stopping`.
abbrev pub check : ℕ → Line → Listener → Listener
check r unterminated x = x
check r not_json x = x
check r shutdown_ping x = x
check r (errand e) x =
    if x.has_server && not x.stopping then record x { checked = (r, e) ∷ x.checked } else x

unfoldable pub read_line : ℕ → Line → Listener → Listener
read_line r line x = check r line (record x { reading = remove_request r x.reading })

-- The rest of `server_reader`: the command is called on the main thread, as is the first task of a
-- wake lock.
unfoldable pub hand_over : ℕ → Errand → List (ℕ × Errand) → Listener → Listener
hand_over r e others x = record x { checked = others; calls = x.calls ++ (r, e) ∷ [] }

-- `process_request`; the handler's thread starts.
unfoldable pub process_request : ℕ → Listener → Listener
process_request r x = record x {
  requests = r ∷ x.requests;
  accepted = r ∷ x.accepted;
  reading = r ∷ x.reading;
}

-- One turn of the loop of `server_thread_func`, up to its next test of `stopping`.
unfoldable pub handle_request : ℕ → Listener → Listener
unfolding process_request
handle_request r x = record (process_request r x) { accepting = not x.stopping }

-- The end of `process_request_thread`.
unfoldable pub finish_request : ℕ → Listener → Listener
finish_request r x = record x { requests = remove_request r x.requests }

-- A socket that cannot be shut down is only logged.
unfoldable pub interrupt_requests : Listener → Listener
interrupt_requests x = record x { stopping = true; interrupted = x.interrupted ++ x.requests }

-- `stop` after `server_thread.join()`.
unfoldable pub forget_server : Listener → Listener
forget_server x = record x { has_server = false }

-- What the threads do. The main thread stops the server in two steps, and waits between them for
-- the end of the loop.
pub data Step (x : Listener) : Listener → Type 0 where
  accepts : (r : ℕ) → x.accepting ≡ true → Step x (handle_request r x)
  reads : (r : ℕ) (line : Line) → member r x.reading ≡ true → Step x (read_line r line x)
  hands_over :
      (r : ℕ) (e : Errand) (front back : List (ℕ × Errand))
      → x.checked ≡ front ++ (r, e) ∷ back
      → Step x (hand_over r e (front ++ back) x)
  finishes : (r : ℕ) → member r x.requests ≡ true → Step x (finish_request r x)
  interrupts : Step x (interrupt_requests x)
  joins : x.accepting ≡ false → Step x (forget_server x)

pub data Reaches (x : Listener) : Listener → Type 0 where
  here : Reaches x x
  then_step : {y z : Listener} → Reaches x y → Step y z → Reaches x z
