-- ===== src/EventLoop/Fifo.antt =====
-- The order in which the event loop performs its tasks (daemon.py, EventLoop.run).
use blankie.Prelude.{
  List, [], ◌∷◌, ◌++◌, true, ◌≡◌, refl, ap, sym, ◌∙◌, append_assoc, append-nil, arith,
}
use blankie.Exec.{Exec}
use blankie.EventLoop.{
  EventLoop, call, call_all, is_empty, exits, turn, Happens, start, called, took,
}

module _ {T W : Type 0} where
  call_all-queue : (ts : List T) (x : EventLoop T W) → (call_all ts x).queue ≡ x.queue ++ ts
  unfolding call
  call_all-queue [] x = sym (append-nil x.queue)
  call_all-queue (t ∷ ts) x = call_all-queue ts (call t x) ∙ append_assoc x.queue (t ∷ []) ts

module _ {T W : Type 0} (perform : T → Exec (EventLoop T W) (Unit {0}))
    (calls : T → EventLoop T W → List T) where
  -- The queue is left as these calls leave it, and no task asks the loop to go on again.
  pub record OnlyCalls : Type 0 where
    pub appends :
        (t : T) (x : EventLoop T W) → (perform t x).1.queue ≡ (call_all (calls t x) x).queue
    pub stays_stopping :
        (t : T) (x : EventLoop T W) → x.stopping ≡ true → (perform t x).1.stopping ≡ true

  regroup :
      (done : List T) (t : T) (ts more : List T)
      → (done ++ t ∷ []) ++ (ts ++ more) ≡ (done ++ t ∷ ts) ++ more
  regroup done t ts more =
      append_assoc done (t ∷ []) (ts ++ more) ∙ sym (append_assoc done (t ∷ ts) more)

  -- If tasks change the queue by their calls only: the tasks performed, followed by those that wait,
  -- are the tasks that waited at the beginning, followed by those that were passed to `call` since,
  -- in the order of the calls. So no task is lost, and none is performed twice, whatever the tasks
  -- raise and whenever other threads call.
  pub happens-fifo :
      OnlyCalls
      → (x y : EventLoop T W) (put done : List T) → Happens perform calls x put done y
      → done ++ y.queue ≡ x.queue ++ put
  unfolding call turn
  happens-fifo only x y put done start = sym (append-nil x.queue)
  happens-fifo only x y put done (called {y = z} {put = earlier} h t) =
      sym (append_assoc done z.queue (t ∷ []))
      ∙ ap (λ l. l ++ t ∷ []) (happens-fifo only x z earlier done h)
      ∙ append_assoc x.queue earlier (t ∷ [])
  happens-fifo only x y put done (took {y = z} {put = earlier} {done = before} {t} {ts} h q) =
      let left = record z { queue = ts } in
      let new = calls t left in
      ap (λ l. (before ++ t ∷ []) ++ l) (only.appends t left ∙ call_all-queue new left)
      ∙ regroup before t ts new
      ∙ ap (λ l. (before ++ l) ++ new) (sym q)
      ∙ ap (λ l. l ++ new) (happens-fifo only x z earlier before h)
      ∙ append_assoc x.queue earlier new

  empty-eq : (l : List T) → is_empty l ≡ true → l ≡ []
  empty-eq [] h = refl
  empty-eq (t ∷ ts) h = cc

  -- If tasks change the queue by their calls only: when the loop exits, it has performed exactly the
  -- tasks that were queued and those that were passed to `call` while it ran, each once, in order.
  pub happens-exits :
      OnlyCalls
      → (x y : EventLoop T W) (put done : List T) → Happens perform calls x put done y
      → exits y ≡ true
      → done ≡ x.queue ++ put
  unfolding exits
  happens-exits only x y put done h e =
      sym (append-nil done)
      ∙ ap (λ l. done ++ l) (sym (empty-eq y.queue (ground arith)))
      ∙ happens-fifo only x y put done h
