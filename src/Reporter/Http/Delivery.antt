-- ===== src/Reporter/Http/Delivery.antt =====
-- What holds of the HTTP reporter after any steps of its two goroutines.
use zipkin_go.Base.{
  ℕ, ◌+◌, ◌≤◌, ◌≡◌, ◌≢◌, refl, arith, List, [], ◌++◌, pos, length, drop, ok, panic, Panic,
}
use zipkin_go.Model.Spans.{Time}
use zipkin_go.Reporter.Http.{Config, Reporter, end_send, quit, start_reporter, receive_span}
use zipkin_go.Reporter.Http.Steps.{
  in_flight, Run, started, on_span, on_tick, on_quit, on_request, on_answer, on_failure,
  slice_from_lem, receive_span_lem,
}
use zipkin_go.Reporter.Http.Invariant.{
  IsDelivering, on_span-IsDelivering, on_request-IsDelivering, on_answer-IsDelivering,
  on_failure-IsDelivering, same_sender, tick-batch,
}

module _ {A W : Type 0} (c : Config A W) (m : ℕ) (limit : c.max_backlog ≡ pos m) where
  Run-IsDelivering :
      {rs ds : List A} {n : ℕ} {r : Reporter A} → Run c rs ds n r → IsDelivering c m limit rs ds n r
  unfolding start_reporter quit
  Run-IsDelivering (started now) = record {
    bounded = omega arith;
    fits = omega arith;
    counts = refl;
    latest = refl;
    exact = λ z. ([], refl, refl);
  }
  Run-IsDelivering (on_span now span r' run is_open e) =
      on_span-IsDelivering c m limit _ _ _ _ r' now span (Run-IsDelivering run) e
  Run-IsDelivering (on_tick now run is_open) =
      let (e, s) = tick-batch c m limit now _ in
      same_sender c m limit _ _ _ _ _ (Run-IsDelivering run) e s
  Run-IsDelivering (on_quit run is_open) =
      same_sender c m limit _ _ _ _ _ (Run-IsDelivering run) refl refl
  Run-IsDelivering (on_request r' run e) =
      on_request-IsDelivering c m limit _ _ _ _ r' (Run-IsDelivering run) e
  Run-IsDelivering (on_answer last batch r' run at e) =
      on_answer-IsDelivering c m limit _ _ batch _ _ r' last (Run-IsDelivering run) at e
  Run-IsDelivering (on_failure last batch x r' run at e) =
      on_failure-IsDelivering c m limit _ _ batch _ _ r' last x (Run-IsDelivering run) at e

  pub Run-fits :
      {rs ds : List A} {n : ℕ} {r : Reporter A}
      → Run c rs ds n r
      → length (in_flight r.sender) ≤ length r.batch
  Run-fits run = (Run-IsDelivering run).fits

  -- No step panics, where the backlog is not negative: the batch stays within the backlog, and neither
  -- the next span nor the answer to a request finds a slice out of range.
  pub Run-no_panic :
      {rs ds : List A} {n : ℕ} {r : Reporter A}
      → Run c rs ds n r
      → (now : Time) (span : A) (p : Panic)
      → (length r.batch ≤ m)
        × (receive_span c now span r ≢ panic p)
        × (end_send (ok tt) r ≢ panic p)
  unfolding end_send
  Run-no_panic {r = r} run now span p =
      let v = Run-IsDelivering run in
      let (r', e, _, _) = receive_span_lem c m limit now span r in
      (
        v.bounded,
        ground (arith, e),
        ground (arith, v.fits, slice_from_lem (length (in_flight r.sender)) r.batch),
      )

  -- Where the backlog is not negative, the numbers of spans that were sent and answered, that were
  -- disposed of, and that are in the batch add up to the number that was taken, and the batch is
  -- what was taken last.
  pub Run-counts :
      {rs ds : List A} {n : ℕ} {r : Reporter A}
      → Run c rs ds n r
      → (n + length ds + length r.batch ≡ length rs) × (r.batch ≡ drop (n + length ds) rs)
  Run-counts run = let v = Run-IsDelivering run in (v.counts, v.latest)

  -- Where the backlog is not negative and no span was disposed of, what was sent and answered,
  -- followed by the batch, is what was taken, in its order: each span was sent with an answer once,
  -- or waits.
  pub Run-exact : {rs ds : List A} {r : Reporter A} → Run c rs ds 0 r → rs ≡ ds ++ r.batch
  Run-exact run = let (_, _, whole) = (Run-IsDelivering run).exact refl in whole
