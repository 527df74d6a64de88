-- ===== src/Events/Readers.antt =====
-- The processes and threads that bring the events of the user's activity: `start`, `stop` and the
-- readers of modules/xss.py and modules/tty_idle.py.
use blankie.Prelude.{
  ℕ, zero, suc, ◌==◌, String, List, [], ◌∷◌, ◌++◌, Bool, true, false, Option, none, some,
  if◌then◌else◌,
}
use blankie.Exec.{Exec, exception, user_error, pure, throw, modify, ◌>>◌}
use blankie.Spec.{str_eq}

-- The attributes of an `XSSPerSessionModule`, the helper processes that run, and the lines that its
-- readers passed to `xss_handle_event`, by words.
pub record XssModule : Type 0 where
  pub xss_process : Bool
  pub xss_reader_thread : Bool
  pub helpers : ℕ
  pub calls : List (List String)

abbrev launch_helper : XssModule → XssModule
launch_helper x = record x { xss_process = true; helpers = suc x.helpers }

-- `terminate` and `communicate`, which waits for the end of the process.
abbrev one_less : ℕ → ℕ
one_less zero = zero
one_less (suc n) = n

abbrev end_helper : XssModule → XssModule
end_helper x = record x { xss_process = false; helpers = one_less x.helpers }

-- `start`, where the helper can be launched, or cannot (`none`), and prints a first line.
abbrev start_helper : Option String → Exec XssModule (Unit {0})
start_helper none = throw (exception "FileNotFoundError")
start_helper (some line) =
    modify launch_helper
    >> (if str_eq line "init\n"
        then modify (λ x. record x { xss_reader_thread = true })
        else modify end_helper >> throw (user_error "mod_xss: Failed to start xss."))

unfoldable pub xss_start : Option String → Exec XssModule (Unit {0})
xss_start first_line = λ x. (if x.xss_process then pure tt else start_helper first_line) x

unfoldable pub xss_stop : Exec XssModule (Unit {0})
xss_stop = λ x.
    (if x.xss_process
        then modify end_helper >> modify (λ y. record y { xss_reader_thread = false })
        else pure tt)
      x

-- `xss_reader`, over the lines up to the end of the helper's output.
unfoldable pub xss_reader : List (List String) → XssModule → XssModule
xss_reader [] x = x
xss_reader (words ∷ lines) x = xss_reader lines (record x { calls = x.calls ++ words ∷ [] })

-- The attributes of a `TTYIdlePerSessionModule`, whether its inotify object watches the device, and
-- the threads by number, with those that were told to stop; `calls` are the threads that called
-- `tty_idle_handle_event`.
pub record TtyModule : Type 0 where
  pub inotify_wd : Option ℕ
  pub tty_thread : Option ℕ
  pub watched : Bool
  pub told_to_stop : List ℕ
  pub calls : List ℕ

-- `start`; `add_watch` gives the descriptor, or raises if the device is not there.
unfoldable pub tty_start : (add_watch : Option ℕ) → (thread : ℕ) → Exec TtyModule (Unit {0})
tty_start none thread = throw (exception "FileNotFoundError")
tty_start (some wd) thread =
    modify (λ x. record x { inotify_wd = some wd; watched = true; tty_thread = some thread })

-- `rm_watch` raises if the watch is gone, as it is when the device was deleted.
abbrev remove_watch : (there : Bool) → Exec TtyModule (Unit {0})
remove_watch true = modify (λ x. record x { watched = false })
remove_watch false = throw (exception "OSError")

abbrev stop_thread : (there : Bool) → Option ℕ → Exec TtyModule (Unit {0})
stop_thread there none = pure tt
stop_thread there (some thread) = do
  modify (λ x. record x { told_to_stop = thread ∷ x.told_to_stop })
  remove_watch there
  modify (λ x. record x { tty_thread = none })

unfoldable pub tty_stop : (there : Bool) → Exec TtyModule (Unit {0})
tty_stop there = λ x. stop_thread there x.tty_thread x

abbrev was_told : ℕ → List ℕ → Bool
was_told t [] = false
was_told t (k ∷ ks) = let rest = was_told t ks in if k == t then true else rest

-- The loop of `INotifyThread.run` over the events of one `read`, with what happens before each.
unfoldable pub inotify_run : ℕ → List (TtyModule → TtyModule) → TtyModule → TtyModule
inotify_run thread [] x = x
inotify_run thread (meanwhile ∷ events) x =
    let y = meanwhile x in
    let rest = inotify_run thread events (record y { calls = y.calls ++ thread ∷ [] }) in
    if was_told thread y.told_to_stop then y else rest
