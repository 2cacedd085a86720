-- ===== src/Reporter/Http/Drains.antt =====
-- That the HTTP reporter can always get rid of what it took.
use zipkin_go.Base.{
  ℕ, ◌≤◌, ◌≡◌, ◌≢◌, refl, sym, ap, ◌∙◌, arith, Bool, true, false, Bool-cases, inl, inr, ◌⊎◌, some,
  List, [], ◌∷◌, ◌++◌, pos, length, drop, append-nil, Outcome, ok, err,
}
use mathlib.Core.Path.{subst⁻¹}
use zipkin_go.Model.Spans.{Time}
use zipkin_go.Reporter.Http.{
  Config, Sender, waiting, sending, stopped, Reporter, enqueue_send, after_send, begin_send,
  next_request, end_send, quit, start_reporter, tick,
}
use zipkin_go.Reporter.Http.Steps.{
  in_flight, Run, started, on_span, on_tick, on_quit, on_request, on_answer, on_failure, Onward,
  here, then_quit, then_request, then_answer, end_send-ok, receive_span_lem,
}
use zipkin_go.Reporter.Http.Delivery.{Run-exact, Run-fits}

abbrev drop_all : {A : Type 0} (xs : List A) → drop (length xs) xs ≡ []
drop_all [] = refl
drop_all (x ∷ xs) = drop_all xs

module _ {A W : Type 0} (c : Config A W) (m : ℕ) (limit : c.max_backlog ≡ pos m) where
  -- While the last send is on its way, `loop` has returned, and the whole batch was sent.
  EndsWhole : Reporter A → Type 0
  EndsWhole r =
      (batch : List A) → r.sender ≡ sending true batch → (r.closed ≡ true) × (r.batch ≡ batch)

  begin_send-sending :
      (last : Bool) (r : Reporter A) (batch : List A)
      → (begin_send last r).sender ≡ sending true batch
      → (last ≡ true) × (r.batch ≡ batch)
  unfolding begin_send after_send
  begin_send-sending last r batch e = ground arith

  next_request-closed :
      (r r' : Reporter A)
      → next_request r ≡ some r'
      → (r' ≡ begin_send false (record r { pending = false }))
        ⊎ ((r' ≡ begin_send true r) × (r.closed ≡ true))
  unfolding next_request
  next_request-closed r r' e = ground arith

  tick-fields :
      (now : Time) (r : Reporter A)
      → ((tick c now r).batch ≡ r.batch)
        × ((tick c now r).sender ≡ r.sender)
        × ((tick c now r).closed ≡ r.closed)
  unfolding tick enqueue_send
  tick-fields now r = ground arith

  end_send-idle :
      (x : Outcome (Unit {0})) (last : Bool) (sent batch : List A) (r r' : Reporter A)
      → r.sender ≡ sending last sent
      → end_send x r ≡ ok r'
      → r'.sender ≢ sending true batch
  unfolding end_send after_send
  end_send-idle x last sent batch r r' at h e = ground arith

  Run-EndsWhole : {rs ds : List A} {n : ℕ} {r : Reporter A} → Run c rs ds n r → EndsWhole r
  unfolding start_reporter quit EndsWhole begin_send
  Run-EndsWhole (started now) batch e = absurd (ground arith)
  Run-EndsWhole (on_span {r} now span r' run is_open h) batch e =
      let (r1, e1, at_batch, at_sender) = receive_span_lem c m limit now span r in
      let same : r1 ≡ r' = ground arith in
      let at : r.sender ≡ sending true batch = sym at_sender ∙ ap (λ x. x.sender) same ∙ e in
      let (shut, _) = Run-EndsWhole run batch at in absurd (ground arith)
  Run-EndsWhole (on_tick {r} now run is_open) batch e =
      let (same, sender, shut) = tick-fields now r in
      let (shut', whole) = Run-EndsWhole run batch (sym sender ∙ e) in (shut ∙ shut', same ∙ whole)
  Run-EndsWhole (on_quit run is_open) batch e =
      let (_, whole) = Run-EndsWhole run batch e in (refl, whole)
  Run-EndsWhole (on_request {r} r' run h) batch e = elim (next_request-closed r r' h) [
    | inl at ↦
        let (not_last, _) =
          begin_send-sending false (record r { pending = false }) batch
            (ap (λ x. x.sender) (sym at) ∙ e) in
        absurd (ground arith)
    | inr (at, shut) ↦
        let (_, whole) = begin_send-sending true r batch (ap (λ x. x.sender) (sym at) ∙ e) in
        rw at (shut, whole)
  ]
  Run-EndsWhole (on_answer {r} last sent r' run at h) batch e =
      absurd (end_send-idle (ok tt) last sent batch r r' at h e)
  Run-EndsWhole (on_failure {r} last sent x r' run at h) batch e =
      absurd (end_send-idle (err x) last sent batch r r' at h e)

module _ {A : Type 0} where
  -- A way to the end of `sendLoop`, with everything sent.
  abbrev Drained : List A → Reporter A → Type 0
  Drained ds0 r0 =
      (ds : List A) × (r : Reporter A) × Onward ds0 r0 ds r
      × (r.sender ≡ stopped (ok tt))
      × (r.batch ≡ [])

  answered :
      (ds0 : List A) (r0 : Reporter A) (ds batch : List A) (r : Reporter A) (last : Bool)
      → Onward ds0 r0 ds r
      → r.sender ≡ sending last batch
      → length batch ≤ length r.batch
      → Onward ds0 r0
          (ds ++ batch)
          (record r { batch = drop (length batch) r.batch; sender = after_send last (ok tt) })
  answered ds0 r0 ds batch r last run at fits =
      then_answer last batch _ run at (end_send-ok r last batch at fits)

  Drained-last :
      (ds0 : List A) (r0 : Reporter A) (ds : List A) (r : Reporter A)
      → Onward ds0 r0 ds r
      → r.sender ≡ sending true r.batch
      → Drained ds0 r0
  unfolding after_send
  Drained-last ds0 r0 ds r run at =
      (_, _, answered ds0 r0 ds r.batch r true run at (omega arith), refl, drop_all r.batch)

  Drained-idle :
      (ds0 : List A) (r0 : Reporter A) (ds : List A) (r : Reporter A) (b : List A)
      → Onward ds0 r0 ds r
      → r.batch ≡ b
      → r.sender ≡ waiting
      → r.pending ≡ false
      → r.closed ≡ true
      → Drained ds0 r0
  unfolding next_request begin_send after_send
  Drained-idle ds0 r0 ds r [] run at sender pending shut = (
    _,
    _,
    then_request (record r { sender = stopped (ok tt) }) run (rw (sender, pending, shut, at) refl),
    refl,
    at,
  )
  Drained-idle ds0 r0 ds r (a ∷ b) run at sender pending shut =
      Drained-last ds0 r0 ds (record r { sender = sending true (a ∷ b) })
        (then_request _ run (rw (sender, pending, shut, at) refl))
        (ap (λ x. sending true x) (sym at))

  Drained-pending :
      (ds0 : List A) (r0 : Reporter A) (ds : List A) (r : Reporter A) (b : List A)
      → Onward ds0 r0 ds r
      → r.batch ≡ b
      → r.sender ≡ waiting
      → r.pending ≡ true
      → r.closed ≡ true
      → Drained ds0 r0
  unfolding next_request begin_send after_send
  Drained-pending ds0 r0 ds r [] run at sender pending shut =
      Drained-idle ds0 r0 ds (record r { pending = false; sender = waiting }) []
        (then_request _ run (rw (sender, pending, at) refl)) at refl refl shut
  Drained-pending ds0 r0 ds r (a ∷ b) run at sender pending shut =
      let flying : Reporter A = record r { pending = false; sender = sending false (a ∷ b) } in
      let fits : length (a ∷ b) ≤ length r.batch = omega (arith, ap length at) in
      let run' : Onward ds0 r0 ds flying =
        then_request flying run (rw (sender, pending, at) refl) in
      Drained-idle ds0 r0 (ds ++ a ∷ b)
        (record flying { batch = drop (length (a ∷ b)) r.batch; sender = waiting }) []
        (answered ds0 r0 ds (a ∷ b) flying false run' refl fits)
        (ap (λ x. drop (length (a ∷ b)) x) at ∙ drop_all b) refl refl shut

  Drained-waiting :
      (ds0 : List A) (r0 : Reporter A) (ds : List A) (r : Reporter A)
      → Onward ds0 r0 ds r
      → r.sender ≡ waiting
      → r.closed ≡ true
      → Drained ds0 r0
  Drained-waiting ds0 r0 ds r run sender shut = elim (Bool-cases r.pending) [
    | inl h ↦ Drained-pending ds0 r0 ds r r.batch run refl sender h shut
    | inr h ↦ Drained-idle ds0 r0 ds r r.batch run refl sender h shut
  ]

module _ {A W : Type 0} (c : Config A W) (m : ℕ) (limit : c.max_backlog ≡ pos m) where
  Run-Onward :
      {rs ds : List A} {n : ℕ} {r : Reporter A} {ds' : List A} {r' : Reporter A}
      → Run c rs ds n r
      → Onward ds r ds' r'
      → Run c rs ds' n r'
  Run-Onward run here = run
  Run-Onward run (then_quit on is_open) = on_quit (Run-Onward run on) is_open
  Run-Onward run (then_request r'' on e) = on_request r'' (Run-Onward run on) e
  Run-Onward run (then_answer last batch r'' on at e) =
      on_answer last batch r'' (Run-Onward run on) at e

  -- From a state in which `loop` has returned.
  Drained-closed :
      (rs ds0 : List A) (r0 : Reporter A) (ds : List A) (n : ℕ) (r : Reporter A) (x : Sender A)
      → Run c rs ds n r
      → Onward ds0 r0 ds r
      → r.closed ≡ true
      → r.sender ≡ x
      → ((result : Outcome (Unit {0})) → r.sender ≢ stopped result)
      → Drained ds0 r0
  unfolding after_send EndsWhole
  Drained-closed rs ds0 r0 ds n r waiting run on shut at going =
      Drained-waiting ds0 r0 ds r on at shut
  Drained-closed rs ds0 r0 ds n r (sending true batch) run on shut at going =
      let (_, whole) = Run-EndsWhole c m limit run batch at in
      Drained-last ds0 r0 ds r on (at ∙ ap (λ x. sending true x) (sym whole))
  Drained-closed rs ds0 r0 ds n r (sending false batch) run on shut at going =
      Drained-waiting ds0 r0 (ds ++ batch)
        (record r { batch = drop (length batch) r.batch; sender = waiting })
        (answered ds0 r0 ds batch r false on at
          (omega (arith, Run-fits c m limit run, ap length (ap in_flight at))))
        refl shut
  Drained-closed rs ds0 r0 ds n r (stopped x) run on shut at going = absurd (going x at)

  -- Where the backlog is not negative and no span was disposed of, any run in which `sendLoop` has not
  -- stopped can go on from its state, by the return of `loop`, by requests for a send, and by answers to
  -- what is sent, to a state in which `sendLoop` has stopped without an error, the batch is empty, and
  -- everything that was taken was sent once and in its order.
  pub Run-drains :
      {rs ds : List A} {r : Reporter A}
      → Run c rs ds 0 r
      → ((result : Outcome (Unit {0})) → r.sender ≢ stopped result)
      → (r' : Reporter A) × Onward ds r rs r'
        × Run c rs rs 0 r'
        × (r'.sender ≡ stopped (ok tt))
        × (r'.batch ≡ [])
  unfolding quit
  Run-drains {rs} {ds} {r} run going =
      let (ds', r', on, done, left) : Drained ds r = elim (Bool-cases r.closed) [
        | inl h ↦ Drained-closed rs ds r ds 0 r r.sender run here h refl going
        | inr h ↦
            Drained-closed rs ds r ds 0 (record r { closed = true }) r.sender (on_quit run h)
              (then_quit here h) refl refl going
      ] in
      let run' : Run c rs ds' 0 r' = Run-Onward run on in
      let whole : rs ≡ ds' = Run-exact c m limit run' ∙ ap (λ x. ds' ++ x) left ∙ append-nil ds' in
      (
        r',
        subst⁻¹ (λ x. Onward ds r x r') whole on,
        subst⁻¹ (λ x. Run c rs x 0 r') whole run',
        done,
        left,
      )
