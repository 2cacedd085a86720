-- ===== src/Reporter/Http/Steps.antt =====
-- The steps of the two goroutines of the HTTP reporter, in any order, and what `append` does.
use zipkin_go.Base.{
  ℕ, suc, ◌+◌, ◌-◌, ◌≤◌, ◌≡◌, refl, ap, ◌∙◌, arith, Bool, true, false, Bool-cases, inl, inr, some,
  List, [], ◌∷◌, ◌++◌, le→leb, if◌then◌else◌, pos, ◌+ℤ◌, ◌-ℤ◌, ltb_ℤ, length, length-append, drop,
  Outcome, ok, err, ◌>>=◌, Error,
}
use zipkin_go.Model.Spans.{Time}
use zipkin_go.Reporter.Http.{
  Config, Sender, sending, Reporter, slice_from, append_span, enqueue_send, after_send,
  next_request, end_send, quit, start_reporter, receive_span, tick,
}

abbrev pub in_flight : {A : Type 0} → Sender A → List A
in_flight (sending last batch) = batch
in_flight _ = []

module _ {A W : Type 0} (c : Config A W) where
  -- The steps of `loop` up to its return, and those of `sendLoop`, in any order, from `NewReporter`. The
  -- indices are the spans that `loop` took, those that `sendLoop` sent and got an answer for, and how
  -- many `append` disposed of.
  pub data Run : List A → List A → ℕ → Reporter A → Type 0 where
    started : (now : Time) → Run [] [] 0 (start_reporter c now)
    on_span :
        {rs ds : List A} {n : ℕ} {r : Reporter A} (now : Time) (span : A) (r' : Reporter A)
        → Run rs ds n r
        → r.closed ≡ false
        → receive_span c now span r ≡ ok r'
        → Run (rs ++ span ∷ []) ds (n + (suc (length r.batch) - length r'.batch)) r'
    on_tick :
        {rs ds : List A} {n : ℕ} {r : Reporter A} (now : Time)
        → Run rs ds n r
        → r.closed ≡ false
        → Run rs ds n (tick c now r)
    on_quit :
        {rs ds : List A} {n : ℕ} {r : Reporter A}
        → Run rs ds n r
        → r.closed ≡ false
        → Run rs ds n (quit r)
    on_request :
        {rs ds : List A} {n : ℕ} {r : Reporter A} (r' : Reporter A)
        → Run rs ds n r
        → next_request r ≡ some r'
        → Run rs ds n r'
    on_answer :
        {rs ds : List A} {n : ℕ} {r : Reporter A} (last : Bool) (batch : List A) (r' : Reporter A)
        → Run rs ds n r
        → r.sender ≡ sending last batch
        → end_send (ok tt) r ≡ ok r'
        → Run rs (ds ++ batch) n r'
    on_failure :
        {rs ds : List A} {n : ℕ} {r : Reporter A} (last : Bool) (batch : List A) (e : Error)
        (r' : Reporter A)
        → Run rs ds n r
        → r.sender ≡ sending last batch
        → end_send (err e) r ≡ ok r'
        → Run rs ds n r'

module _ {A : Type 0} where
  -- How a run goes on while `Close` waits: `loop` returns, `sendLoop` takes requests, and what it sends is
  -- answered. The spans and the states are those before and after.
  pub data Onward (ds : List A) (r : Reporter A) : List A → Reporter A → Type 0 where
    here : Onward ds r ds r
    then_quit :
        {ds' : List A} {r' : Reporter A}
        → Onward ds r ds' r'
        → r'.closed ≡ false
        → Onward ds r ds' (quit r')
    then_request :
        {ds' : List A} {r' : Reporter A} (r'' : Reporter A)
        → Onward ds r ds' r'
        → next_request r' ≡ some r''
        → Onward ds r ds' r''
    then_answer :
        {ds' : List A} {r' : Reporter A} (last : Bool) (batch : List A) (r'' : Reporter A)
        → Onward ds r ds' r'
        → r'.sender ≡ sending last batch
        → end_send (ok tt) r' ≡ ok r''
        → Onward ds r (ds' ++ batch) r''

sub_pos : (a b : ℕ) → b ≤ a → pos a -ℤ pos b ≡ pos (a - b)
unfolding ◌-ℤ◌
sub_pos a b h = ground arith

module _ {A : Type 0} where
  pub slice_from_lem :
      (n : ℕ) (xs : List A) → n ≤ length xs → slice_from (pos n) xs ≡ ok (drop n xs)
  unfolding slice_from
  slice_from_lem n xs h = rw (le→leb n (length xs) h) refl

  -- An answer finds at least as many spans in the batch as were sent.
  pub end_send-ok :
      (r : Reporter A) (last : Bool) (batch : List A)
      → r.sender ≡ sending last batch
      → length batch ≤ length r.batch
      → end_send (ok tt) r
        ≡ ok (record r { batch = drop (length batch) r.batch; sender = after_send last (ok tt) })
  unfolding end_send
  end_send-ok r last batch at h = rw (at, slice_from_lem (length batch) r.batch h) refl

  trimmed :
      (m : ℕ) (xs : List A)
      → (let sized : List A → Outcome (List A × ℕ) = λ rest. ok (rest, length rest) in
          if ltb_ℤ (pos m) (pos (length xs))
          then slice_from (pos (length xs) -ℤ pos m) xs >>= sized
          else sized xs)
        ≡ ok (drop (length xs - m) xs, length (drop (length xs - m) xs))
  trimmed m xs = elim (Bool-cases (ltb_ℤ (pos m) (pos (length xs)))) [
    | inl h ↦
        rw
          (h, sub_pos (length xs) m (ground arith), slice_from_lem (length xs - m) xs (omega arith))
          refl
    | inr h ↦ let e : length xs - m ≡ 0 = ground arith in rw (h, e) refl
  ]

  -- An append that fits leaves the batch as it is, and one that does not drops its oldest spans.
  pub append_span_lem :
      (m : ℕ) (span : A) (batch : List A)
      → append_span (pos m) span batch
        ≡ ok (
          drop (suc (length batch) - m) (batch ++ span ∷ []),
          length (drop (suc (length batch) - m) (batch ++ span ∷ [])),
        )
  unfolding append_span
  append_span_lem m span batch =
      let e : length (batch ++ span ∷ []) ≡ suc (length batch) =
        omega (arith, length-append batch (span ∷ [])) in
      trimmed m (batch ++ span ∷ [])
      ∙ ap (λ k. ok (drop (k - m) (batch ++ span ∷ []), length (drop (k - m) (batch ++ span ∷ []))))
          e

module _ {A W : Type 0} (c : Config A W) (m : ℕ) (limit : c.max_backlog ≡ pos m) where
  pub receive_span_lem :
      (now : Time) (span : A) (r : Reporter A)
      → (r' : Reporter A) × (receive_span c now span r ≡ ok r')
        × (r'.batch ≡ drop (suc (length r.batch) - m) (r.batch ++ span ∷ []))
        × (r'.sender ≡ r.sender)
  unfolding receive_span enqueue_send
  receive_span_lem now span r =
      let rest = drop (suc (length r.batch) - m) (r.batch ++ span ∷ []) in
      elim (Bool-cases (ltb_ℤ (pos (length rest)) c.batch_size)) [
        | inl h ↦ (
          record r { batch = rest },
          rw (limit, append_span_lem m span r.batch, h) refl,
          refl,
          refl,
        )
        | inr h ↦ (
          record r { batch = rest; next_send = now +ℤ c.batch_interval; pending = true },
          rw (limit, append_span_lem m span r.batch, h) refl,
          refl,
          refl,
        )
      ]
