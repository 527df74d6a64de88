-- ===== src/XssHelper/Cleanup.antt =====
-- What the screen saver program (xss_helper.py) leaves in the X server.
use blankie.Prelude.{String, List, [], ◌∷◌, Bool, true, false, ◌≡◌, Option, none, some, arith}
use blankie.Exec.{exception, throw, >>=_keeps}
use blankie.XssHelper.{
  ScreenSaver, Call, unset_attributes, delete_property, free_pixmap, Event, notify, other, signal,
  words_of, print_words, handle_event, handle_events, set_up, stop, run, on_signal,
}

-- What the server has, the object knows of.
pub record IsTracked (x : ScreenSaver) : Type 0 where
  pub attributes : x.screen ≡ false → x.server_attributes ≡ false
  pub property : x.screen ≡ false → x.server_property ≡ false
  pub pixmap : x.pixmap ≡ false → x.server_pixmap ≡ false

module _ (works : Call → Bool) (accepted : Bool) where
  set_up-IsTracked : (x : ScreenSaver) → IsTracked x → IsTracked (set_up works accepted x).1
  unfolding set_up
  set_up-IsTracked x h = record {
    attributes = ground (arith, h.attributes, h.property, h.pixmap);
    property = ground (arith, h.attributes, h.property, h.pixmap);
    pixmap = ground (arith, h.attributes, h.property, h.pixmap);
  }

  stop-IsTracked : (x : ScreenSaver) → IsTracked x → IsTracked (stop works accepted x).1
  unfolding stop
  stop-IsTracked x h = record {
    attributes = ground (arith, h.attributes, h.property, h.pixmap);
    property = ground (arith, h.attributes, h.property, h.pixmap);
    pixmap = ground (arith, h.attributes, h.property, h.pixmap);
  }

  handle_event-IsTracked :
      (e : Event) (x : ScreenSaver) → IsTracked x → IsTracked (handle_event works accepted e x).1
  unfolding handle_event on_signal
  handle_event-IsTracked other x h = h
  handle_event-IsTracked signal x h =
      >>=_keeps IsTracked (stop works accepted) (λ _. throw (exception "ConnectionClosedError")) x
        (stop-IsTracked x h) (λ _ _. stop-IsTracked x h)
  handle_event-IsTracked (notify state kind forced) x h = go (words_of state kind forced)
    where
      go : (words : Option (List String)) → IsTracked (print_words words x).1
      go none = h
      go (some words) = record {
        attributes = h.attributes;
        property = h.property;
        pixmap = h.pixmap;
      }

  handle_events-IsTracked :
      (es : List Event) (x : ScreenSaver)
      → IsTracked x
      → IsTracked (handle_events works accepted es x).1
  unfolding handle_events
  handle_events-IsTracked [] x h = h
  handle_events-IsTracked (e ∷ es) x h =
      >>=_keeps IsTracked (handle_event works accepted e) (λ _. handle_events works accepted es) x
        (handle_event-IsTracked e x h)
        (λ _ _. handle_events-IsTracked es _ (handle_event-IsTracked e x h))

  -- Nothing of the program is left in the server.
  abbrev pub IsClean : ScreenSaver → Type 0
  IsClean x =
      (x.server_attributes ≡ false) × (x.server_property ≡ false) × (x.server_pixmap ≡ false)

  stop-IsClean :
      (x : ScreenSaver)
      → works unset_attributes ≡ true
      → works delete_property ≡ true
      → works free_pixmap ≡ true
      → IsTracked x
      → IsClean (stop works accepted x).1
  unfolding stop
  stop-IsClean x u d f h = (
    ground (arith, h.attributes, h.property, h.pixmap),
    ground (arith, h.attributes, h.property, h.pixmap),
    ground (arith, h.attributes, h.property, h.pixmap),
  )

  -- If the calls that release things succeed: however the start fails, whatever events arrive and
  -- however the connection ends, `run` leaves no attributes, no property and no pixmap of the screen
  -- saver in the server.
  pub run-IsClean :
      (events : List Event) (x : ScreenSaver)
      → works unset_attributes ≡ true
      → works delete_property ≡ true
      → works free_pixmap ≡ true
      → IsTracked x
      → IsClean (run works accepted events x).1
  unfolding run
  run-IsClean events x u d f h = stop-IsClean _ u d f (
      >>=_keeps IsTracked (set_up works accepted) (λ _. handle_events works accepted events) x
        (set_up-IsTracked x h) (λ _ _. handle_events-IsTracked events _ (set_up-IsTracked x h)))
