-- ===== src/Reporter/Http/InFlight.antt =====
-- What becomes of spans that arrive while a batch is being sent.
use zipkin_go.Base.{
  ℕ, suc, ◌+◌, ◌-◌, ◌≤◌, ◌≡◌, refl, sym, ap, ◌∙◌, arith, Bool, List, [], ◌∷◌, ◌++◌, append_assoc,
  append-nil, pos, length, length-append, length-drop, drop, drop-drop, drop-append, drop-append_le,
  Outcome, ok, ◌>>=◌,
}
use zipkin_go.Model.Spans.{Time}
use zipkin_go.Reporter.Http.{Config, sending, Reporter, after_send, end_send, receive_span}
use zipkin_go.Reporter.Http.Steps.{end_send-ok, receive_span_lem}

module _ {A W : Type 0} (c : Config A W) where
  -- `loop` takes one span after the other.
  unfoldable pub receive_all : Time → List A → Reporter A → Outcome (Reporter A)
  receive_all now [] r = ok r
  receive_all now (span ∷ spans) r = do r' ← receive_span c now span r; receive_all now spans r'

module _ {A W : Type 0} (c : Config A W) (m : ℕ) (limit : c.max_backlog ≡ pos m) where
  receive_all_lem :
      (now : Time) (spans : List A) (r : Reporter A)
      → length r.batch ≤ m
      → (r' : Reporter A) × (receive_all c now spans r ≡ ok r')
        × (r'.batch ≡ drop (length r.batch + length spans - m) (r.batch ++ spans))
        × (r'.sender ≡ r.sender)
  unfolding receive_all
  receive_all_lem now [] r h =
      let none_left : length r.batch + 0 - m ≡ 0 = omega (arith, h) in
      (r, refl, sym (append-nil r.batch) ∙ ap (λ k. drop k (r.batch ++ [])) (sym none_left), refl)
  receive_all_lem now (span ∷ spans) r h =
      let b = r.batch in
      let k = suc (length b) - m in
      let (r1, e, at, s) = receive_span_lem c m limit now span r in
      let size : length r1.batch ≡ suc (length b) - k =
        ap length at
        ∙ length-drop k (b ++ span ∷ [])
        ∙ ap (λ x. x - k) (omega (arith, length-append b (span ∷ []))) in
      let (r', e', at', s') = receive_all_lem now spans r1 (omega (arith, size)) in
      let d = length r1.batch + length spans - m in
      (
        r',
        rw e e',
        at'
            ∙ ap (λ x. drop d (x ++ spans)) at
            ∙ ap (λ x. drop d x)
                (sym (
                  drop-append_le k (b ++ span ∷ []) spans
                    (omega (arith, length-append b (span ∷ [])))))
            ∙ drop-drop d k ((b ++ span ∷ []) ++ spans)
            ∙ ap (λ x. drop x ((b ++ span ∷ []) ++ spans)) (omega (arith, size, h))
            ∙ ap (λ x. drop (length b + suc (length spans) - m) x)
                (append_assoc b (span ∷ []) spans),
        s' ∙ s,
      )

  -- While the whole batch, within the backlog, is being sent, spans arrive and are appended. The
  -- answer then removes as many spans as were sent from the front of the batch, whatever `append`
  -- has removed from there before: if the batch and the new spans exceed the backlog, as many of
  -- the new spans as there are in excess are lost, the oldest ones, though they were not sent and
  -- the sent ones would have made room for them.
  pub end_send-receive_all :
      (now : Time) (last : Bool) (spans : List A) (r : Reporter A)
      → length r.batch ≤ m
      → r.sender ≡ sending last r.batch
      → (r1 r2 : Reporter A) × (receive_all c now spans r ≡ ok r1)
        × (end_send (ok tt) r1 ≡ ok r2)
        × (r2.batch ≡ drop (length r.batch + length spans - m) spans)
  unfolding end_send
  end_send-receive_all now last spans r h at =
      let b = r.batch in
      let d = length b + length spans - m in
      let (r1, e, at_batch, s) = receive_all_lem now spans r h in
      let size : length r1.batch ≡ length b + length spans - d =
        ap length at_batch ∙ length-drop d (b ++ spans) ∙ ap (λ x. x - d) (length-append b spans) in
      (
        r1,
        record r1 { batch = drop (length b) r1.batch; sender = after_send last (ok tt) },
        e,
        end_send-ok r1 last b (s ∙ at) (omega (arith, size)),
        ap (λ x. drop (length b) x) at_batch
            ∙ drop-drop (length b) d (b ++ spans)
            ∙ ap (λ x. drop x (b ++ spans)) (omega arith)
            ∙ sym (drop-drop d (length b) (b ++ spans))
            ∙ ap (λ x. drop d x) (drop-append (length b) b spans refl),
      )
