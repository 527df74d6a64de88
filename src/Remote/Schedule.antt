-- ===== src/Remote/Schedule.antt =====
-- The timer of modules/remote_sender.py, which has it look for changes every five seconds.
use blankie.Prelude.{ℕ, suc, Bool, true, false}
use blankie.Exec.{Exec, modify, ◌>>◌}
use blankie.Remote.{Sender, sender_update}

-- The attribute `timer`, the number of timers that were started, and the rest of the module.
pub record Schedule : Type 0 where
  pub timer : Bool
  pub started : ℕ
  pub sender : Sender

abbrev on_sender : Exec Sender (Unit {0}) → Exec Schedule (Unit {0})
on_sender act x = let (r, s) = act x.sender in (r, record x { sender = s })

unfoldable pub schedule_timer : Schedule → Schedule
schedule_timer x = record x { timer = true; started = suc x.started }

unfoldable pub sender_start : Schedule → Schedule
unfolding schedule_timer
sender_start x = schedule_timer x

unfoldable pub sender_stop : Schedule → Schedule
sender_stop x = record x { timer = false }

unfoldable pub handle_timer : Exec Schedule (Unit {0})
unfolding schedule_timer
handle_timer = on_sender (sender_update false) >> modify schedule_timer
