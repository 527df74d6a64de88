-- ===== src/Backlight/Restore.antt =====
-- The brightness comes back (modules/xbacklight.py).
use blankie.Prelude.{String, List, true, false, ◌≡◌, refl, none, some, arith}
use blankie.Exec.{return, raise, exception}
use blankie.Backlight.{Backlight, sets, fails, missing, start, stop, handle_exit, reconfigure}

-- What happens to a started module: its process fades the screen, or exits, or the module is
-- reconfigured.
pub data Runs (x : Backlight) : Backlight → Type 0 where
  begin : Runs x x
  faded :
      {y : Backlight}
      → Runs x y
      → (level : String) → y.fading ≡ true
      → Runs x (record y { screen = level })
  exited : {y : Backlight} → Runs x y → Runs x (handle_exit y)
  reconfigured : {y : Backlight} → Runs x y → (args : List String) → Runs x (reconfigure args y).1

Runs-brightness : (x y : Backlight) → Runs x y → y.brightness ≡ x.brightness
unfolding handle_exit reconfigure
Runs-brightness x y begin = refl
Runs-brightness x y (faded r level f) = Runs-brightness x _ r
Runs-brightness x y (exited r) = Runs-brightness x _ r
Runs-brightness x y (reconfigured {y = z} r args) = ground (arith, Runs-brightness x z r)

-- If the module was started with success, and had no process before, then, however far the screen has
-- faded: a `stop` whose call of xbacklight works returns, and the brightness is the one from before
-- the start. If xbacklight is not found, `stop` raises, and a later `stop` whose call works brings
-- that brightness back all the same. If xbacklight fails, `stop` returns and leaves the screen as
-- that did. In each case no process is left, and `stop` has forgotten the brightness exactly when it
-- has returned.
pub stop-restores :
    (x y z : Backlight) (level : String)
    → x.fading ≡ false
    → start true true x ≡ (return tt, y)
    → Runs y z
    → (let n = (stop sets z).1 in
        (stop sets z ≡ (return tt, n))
        × ((n.screen ≡ x.screen) × ((n.brightness ≡ none) × (n.fading ≡ false))))
      × (let n = (stop missing z).1 in
          (stop missing z ≡ (raise (exception "FileNotFoundError"), n))
          × ((n.screen ≡ z.screen)
              × ((n.brightness ≡ some x.screen)
                  × ((n.fading ≡ false) × ((stop sets n).1.screen ≡ x.screen)))))
      × (let n = (stop (fails level) z).1 in
          (stop (fails level) z ≡ (return tt, n))
          × ((n.screen ≡ level) × ((n.brightness ≡ none) × (n.fading ≡ false))))
unfolding start stop
stop-restores x y z level f h r =
    let kept : z.brightness ≡ some x.screen = ground (arith, Runs-brightness y z r) in
    rw kept (
      (refl, (refl, (refl, refl))),
      (refl, (refl, (refl, (refl, refl)))),
      (refl, (refl, (refl, refl))),
    )
