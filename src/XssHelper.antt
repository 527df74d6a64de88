-- ===== src/XssHelper.antt =====
-- xss_helper.py: the program that is the X server's screen saver, and prints what the server tells
-- it.
pub mod Cleanup
use blankie.Prelude.{
  ℕ, zero, suc, String, List, [], ◌∷◌, ◌++◌, Bool, true, false, Option, none, some, get_elem?,
  if◌then◌else◌,
}
use blankie.Exec.{
  Exec, Error, Outcome, return, raise, out_of_fuel, exception, pure, throw, modify, ◌>>=◌, ◌>>◌,
}

-- The attributes of a `ScreenSaver`, what the X server has of it, and the lines printed, by words.
pub record ScreenSaver : Type 0 where
  pub screen : Bool
  pub pixmap : Bool
  pub server_attributes : Bool
  pub server_property : Bool
  pub server_pixmap : Bool
  pub printed : List (List String)

-- The calls of Xlib that can raise.
pub data Call : Type 0 where
  query_version : Call
  set_attributes : Call
  sync_attributes : Call
  select_input : Call
  create_pixmap : Call
  change_property : Call
  sync_property : Call
  unset_attributes : Call
  delete_property : Call
  free_pixmap : Call

-- What `next_event` returns, or a signal while it waits.
pub data Event : Type 0 where
  notify : (state kind forced : ℕ) → Event
  other : Event
  signal : Event

-- `try: body finally: last`
abbrev pub after_finally : Outcome (Unit {0}) → Outcome (Unit {0}) → Outcome (Unit {0})
after_finally r (return _) = r
after_finally r (raise e) = raise e
after_finally r out_of_fuel = out_of_fuel

abbrev pub try_finally : {S : Type 0} → Exec S (Unit {0}) → Exec S (Unit {0}) → Exec S (Unit {0})
try_finally body last s = let (r, t) = body s in let (r', u) = last t in (after_finally r r', u)

abbrev pub print : List String → Exec ScreenSaver (Unit {0})
print words = modify (λ x. record x { printed = x.printed ++ words ∷ [] })

-- The words of the line for an event; an index out of range raises.
abbrev pub join_words : Option String → Option String → Option String → Option (List String)
join_words (some a) (some b) (some c) = some ("notify" ∷ a ∷ b ∷ c ∷ [])
join_words (some a) (some b) none = none
join_words (some a) none c = none
join_words none b c = none

unfoldable pub words_of : ℕ → ℕ → ℕ → Option (List String)
words_of state kind forced =
    join_words (get_elem? ("off" ∷ "on" ∷ "cycle" ∷ []) state)
      (get_elem? ("blanked" ∷ "internal" ∷ "external" ∷ []) kind)
      (get_elem? ("natural" ∷ "forced" ∷ []) forced)

abbrev print_words : Option (List String) → Exec ScreenSaver (Unit {0})
print_words none = throw (exception "IndexError")
print_words (some words) = print words

-- `works` tells which calls succeed, and `accepted` whether the server takes the attributes (it
-- does not if another screen saver is running).
module _ (works : Call → Bool) (accepted : Bool) where
  abbrev pub request : Call → (ScreenSaver → ScreenSaver) → Exec ScreenSaver (Unit {0})
  request c f x = if works c then (return tt, f x) else throw (exception "ConnectionClosedError") x

  -- `run` up to the line "init".
  unfoldable pub set_up : Exec ScreenSaver (Unit {0})
  set_up = do
    request query_version (λ x. x)
    modify (λ x. record x { screen = true })
    request set_attributes (λ x. record x { server_attributes = accepted })
    request sync_attributes (λ x. x)
    if accepted then pure tt else throw (exception "Exception")
    request select_input (λ x. x)
    request create_pixmap (λ x. record x { pixmap = true; server_pixmap = true })
    request change_property (λ x. record x { server_property = true })
    request sync_property (λ x. x)
    print ("init" ∷ [])

  abbrev release_screen : Bool → Exec ScreenSaver (Unit {0})
  release_screen false = pure tt
  release_screen true = do
    request unset_attributes (λ x. record x { server_attributes = false })
    request delete_property (λ x. record x { server_property = false })
    modify (λ x. record x { screen = false })

  abbrev release_pixmap : Bool → Exec ScreenSaver (Unit {0})
  release_pixmap false = pure tt
  release_pixmap true = do
    request free_pixmap (λ x. record x { server_pixmap = false })
    modify (λ x. record x { pixmap = false })

  -- `stop`
  unfoldable pub stop : Exec ScreenSaver (Unit {0})
  stop = do λ x. release_screen x.screen x; λ x. release_pixmap x.pixmap x

  -- The handler of a signal closes the connection too, so that the loop's next call raises.
  unfoldable pub on_signal : Exec ScreenSaver (Unit {0})
  unfolding stop
  on_signal = stop >> throw (exception "ConnectionClosedError")

  -- What the loop does with an event.
  unfoldable pub handle_event : Event → Exec ScreenSaver (Unit {0})
  unfolding words_of on_signal
  handle_event (notify state kind forced) = print_words (words_of state kind forced)
  handle_event other = pure tt
  handle_event signal = on_signal

  -- The loop over the events, until `next_event` raises.
  unfoldable pub handle_events : List Event → Exec ScreenSaver (Unit {0})
  unfolding handle_event
  handle_events [] = throw (exception "ConnectionClosedError")
  handle_events (e ∷ es) = handle_event e >> handle_events es

  unfoldable pub run : List Event → Exec ScreenSaver (Unit {0})
  unfolding set_up handle_events stop
  run events = try_finally (set_up >> handle_events events) stop
