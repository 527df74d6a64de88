-- ===== src/Server/Listener/Stopping.antt =====
-- Once the server of modules/server.py is stopping.
use blankie.Prelude.{
  ℕ, suc, ◌+◌, List, [], ◌∷◌, ◌++◌, true, false, not, length, ◌≡◌, refl, sym, ◌∙◌, ap, ◌≢◌,
  length-append, ◌⊎◌, inl, inr, arith,
}
use blankie.Server.Listener.{
  Listener, Line, member, remove_request, unterminated, not_json, shutdown_ping, errand, check,
  read_line, hand_over, hands_over, process_request, handle_request, finish_request,
  interrupt_requests, forget_server, Step, accepts, reads, finishes, interrupts, joins, Reaches,
  here, then_step,
}

-- What was passed on to the main thread, or will be.
abbrev pub errands : Listener → ℕ
errands x = length x.calls + length x.checked

-- `y` is stopping, and since `x` no handler has found it otherwise; `r` has been shut down.
record Quiet (x : Listener) (r : ℕ) (y : Listener) : Type 0 where
  stopping : y.stopping ≡ true
  same_errands : errands y ≡ errands x
  interrupted : member r y.interrupted ≡ true
  last_accepted :
      (length y.accepted ≡ length x.accepted)
      ⊎ (y.accepting ≡ false) × (length y.accepted ≡ suc (length x.accepted))

member-append_left : (r : ℕ) (xs ys : List ℕ) → member r xs ≡ true → member r (xs ++ ys) ≡ true
member-append_left r [] ys h = cc
member-append_left r (x ∷ xs) ys h = ground (arith, member-append_left r xs ys)

member-append_right : (r : ℕ) (xs ys : List ℕ) → member r ys ≡ true → member r (xs ++ ys) ≡ true
member-append_right r [] ys h = h
member-append_right r (x ∷ xs) ys h = ground (arith, member-append_right r xs ys)

true≢false : true ≢ false
true≢false q = cc

check-stopping : (r : ℕ) (line : Line) (y : Listener) → y.stopping ≡ true → check r line y ≡ y
check-stopping r unterminated y h = refl
check-stopping r not_json y h = refl
check-stopping r shutdown_ping y h = refl
check-stopping r (errand e) y h = ground (arith, h)

Step-Quiet : (x : Listener) (r : ℕ) (y z : Listener) → Quiet x r y → Step y z → Quiet x r z
unfolding handle_request process_request read_line hand_over finish_request interrupt_requests
    forget_server
Step-Quiet x r y z h (accepts k open_loop) = record {
  stopping = h.stopping;
  same_errands = h.same_errands;
  interrupted = h.interrupted;
  last_accepted = elim h.last_accepted [
    | inl e ↦ inr (ap not h.stopping, ap suc e)
    | inr (closed, _) ↦ absurd (true≢false (sym open_loop ∙ closed))
  ];
}
Step-Quiet x r y z h (reads k line m) =
    rw (check-stopping k line (record y { reading = remove_request k y.reading }) h.stopping)
      (record {
        stopping = h.stopping;
        same_errands = h.same_errands;
        interrupted = h.interrupted;
        last_accepted = h.last_accepted;
      })
Step-Quiet x r y z h (hands_over k e front back at) = record {
  stopping = h.stopping;
  same_errands = omega (
    arith,
    h.same_errands,
    ap (λ l. length l) at,
    length-append front ((k, e) ∷ back),
    length-append front back,
    length-append y.calls ((k, e) ∷ []),
  );
  interrupted = h.interrupted;
  last_accepted = h.last_accepted;
}
Step-Quiet x r y z h (finishes k m) = record {
  stopping = h.stopping;
  same_errands = h.same_errands;
  interrupted = h.interrupted;
  last_accepted = h.last_accepted;
}
Step-Quiet x r y z h interrupts = record {
  stopping = refl;
  same_errands = h.same_errands;
  interrupted = member-append_left r y.interrupted y.requests h.interrupted;
  last_accepted = h.last_accepted;
}
Step-Quiet x r y z h (joins closed) = record {
  stopping = h.stopping;
  same_errands = h.same_errands;
  interrupted = h.interrupted;
  last_accepted = h.last_accepted;
}

Reaches-Quiet : (x : Listener) (r : ℕ) (y z : Listener) → Quiet x r y → Reaches y z → Quiet x r z
Reaches-Quiet x r y z h here = h
Reaches-Quiet x r y z h (then_step {y = m} path step) =
    Step-Quiet x r m z (Reaches-Quiet x r y m h path) step

-- After `interrupt_requests`, whatever the threads do: the server is stopping, every connection that
-- was open then has been shut down, no more commands and wake locks reach the main thread than those
-- whose handlers had already found that the server was not stopping, and at most one more connection
-- is accepted; with it the loop of the server thread has ended.
pub interrupt_requests-quiet :
    (x y : Listener) (r : ℕ)
    → member r x.requests ≡ true
    → Reaches (interrupt_requests x) y
    → (y.stopping ≡ true)
      × (member r y.interrupted ≡ true)
      × (errands y ≡ errands x)
      × ((length y.accepted ≡ length x.accepted)
          ⊎ (y.accepting ≡ false) × (length y.accepted ≡ suc (length x.accepted)))
unfolding interrupt_requests
interrupt_requests-quiet x y r m path =
    let h =
      Reaches-Quiet x r (interrupt_requests x) y
        (record {
          stopping = refl;
          same_errands = refl;
          interrupted = member-append_right r x.interrupted x.requests m;
          last_accepted = inl refl;
        })
        path in
    (h.stopping, h.interrupted, h.same_errands, h.last_accepted)
