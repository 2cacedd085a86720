-- ===== src/Reporter/Http/Invariant.antt =====
-- What stays true of the HTTP reporter in each step of its two goroutines.
use zipkin_go.Base.{
  ℕ, suc, ◌+◌, ◌-◌, ◌≤◌, ◌≡◌, refl, sym, ap, ◌∙◌, arith, Bool, true, false, inl, inr, ◌⊎◌, some,
  List, [], ◌∷◌, ◌++◌, append_assoc, append-nil, pos, length, length-append, length-drop, drop,
  drop-drop, drop-append, drop-append_le, Outcome, ok, err, Error,
}
use zipkin_go.Model.Spans.{Time}
use zipkin_go.Reporter.Http.{
  Config, sending, Reporter, enqueue_send, after_send, begin_send, next_request, end_send,
  receive_span, tick,
}
use zipkin_go.Reporter.Http.Steps.{in_flight, end_send-ok, receive_span_lem}

module _ {A W : Type 0} (c : Config A W) (m : ℕ) (limit : c.max_backlog ≡ pos m) where
  -- What stays true of a reporter, beside what it took, what it sent, and how many spans it disposed of.
  pub record IsDelivering (rs ds : List A) (n : ℕ) (r : Reporter A) : Type 0 where
    pub bounded : length r.batch ≤ m
    pub fits : length (in_flight r.sender) ≤ length r.batch
    pub counts : n + length ds + length r.batch ≡ length rs
    pub latest : r.batch ≡ drop (n + length ds) rs
    pub exact :
        n ≡ 0 → (rest : List A) × (r.batch ≡ in_flight r.sender ++ rest) × (rs ≡ ds ++ r.batch)

  pub on_span-IsDelivering :
      (rs ds : List A) (n : ℕ) (r r' : Reporter A) (now : Time) (span : A)
      → IsDelivering rs ds n r
      → receive_span c now span r ≡ ok r'
      → IsDelivering (rs ++ span ∷ []) ds (n + (suc (length r.batch) - length r'.batch)) r'
  on_span-IsDelivering rs ds n r r' now span v e =
      let (r1, e1, at_batch, at_sender) = receive_span_lem c m limit now span r in
      let same : r1 ≡ r' = ground arith in
      let b = r.batch in
      let k = suc (length b) - m in
      let at : r'.batch ≡ drop k (b ++ span ∷ []) = ap (λ x. x.batch) (sym same) ∙ at_batch in
      let flying : in_flight r'.sender ≡ in_flight r.sender =
        ap in_flight (ap (λ x. x.sender) (sym same) ∙ at_sender) in
      let size : length r'.batch ≡ suc (length b) - k =
        ap length at
        ∙ length-drop k (b ++ span ∷ [])
        ∙ ap (λ x. x - k) (omega (arith, length-append b (span ∷ []))) in
      let dropped : suc (length b) - length r'.batch ≡ k = omega (arith, size) in
      record {
        bounded = omega (arith, size, v.bounded);
        fits = omega (arith, size, v.fits, v.bounded, ap length flying);
        counts = omega (arith, size, v.counts, length-append rs (span ∷ []));
        latest =
            at
            ∙ ap (λ x. drop k (x ++ span ∷ [])) v.latest
            ∙ ap (λ x. drop k x)
                (sym (drop-append_le (n + length ds) rs (span ∷ []) (omega (arith, v.counts))))
            ∙ drop-drop k (n + length ds) (rs ++ span ∷ [])
            ∙ ap (λ x. drop x (rs ++ span ∷ [])) (omega (arith, dropped));
        exact = λ none_dropped.
            let k0 : k ≡ 0 = omega (arith, dropped, none_dropped) in
            let (rest, pre, whole) = v.exact (omega arith) in
            let at' : r'.batch ≡ b ++ span ∷ [] = at ∙ ap (λ x. drop x (b ++ span ∷ [])) k0 in
            (
              rest ++ span ∷ [],
              at'
                  ∙ ap (λ x. x ++ span ∷ []) pre
                  ∙ append_assoc (in_flight r.sender) rest (span ∷ [])
                  ∙ ap (λ x. x ++ (rest ++ span ∷ [])) (sym flying),
              ap (λ x. x ++ span ∷ []) whole
                  ∙ append_assoc ds b (span ∷ [])
                  ∙ ap (λ x. ds ++ x) (sym at'),
            );
      }

  same_batch :
      (rs ds rest : List A) (n : ℕ) (r r' : Reporter A)
      → IsDelivering rs ds n r
      → r'.batch ≡ r.batch
      → r.batch ≡ in_flight r'.sender ++ rest
      → IsDelivering rs ds n r'
  same_batch rs ds rest n r r' v e pre = record {
    bounded = omega (arith, v.bounded, ap length e);
    fits = omega (arith, ap length e, ap length pre, length-append (in_flight r'.sender) rest);
    counts = omega (arith, v.counts, ap length e);
    latest = e ∙ v.latest;
    exact =
        λ z. let (_, _, whole) = v.exact z in (rest, e ∙ pre, whole ∙ ap (λ x. ds ++ x) (sym e));
  }

  in_flight-after_send :
      (last : Bool) (x : Outcome (Unit {0})) → in_flight {A = A} (after_send last x) ≡ []
  unfolding after_send
  in_flight-after_send true x = refl
  in_flight-after_send false x = refl

  in_flight-begin_send :
      (last : Bool) (r : Reporter A)
      → ((begin_send last r).batch ≡ r.batch)
        × (rest : List A) × (r.batch ≡ in_flight (begin_send last r).sender ++ rest)
  unfolding begin_send after_send
  in_flight-begin_send last r =
      elim r.batch
        as (λ b.
          (b ≡ b)
          × (rest : List A) × (b
              ≡ in_flight
                  (elim b [ [] ↦ after_send last (ok tt) | a ∷ batch ↦ sending last (a ∷ batch) ])
                ++ rest)) [
                  | [] ↦ (refl, [], sym (ap (λ s. s ++ []) (in_flight-after_send last (ok tt))))
                  | a ∷ batch ↦ (refl, [], sym (append-nil (a ∷ batch)))
                ]

  begin_send-IsDelivering :
      (rs ds : List A) (n : ℕ) (r : Reporter A) (last : Bool)
      → IsDelivering rs ds n r
      → IsDelivering rs ds n (begin_send last r)
  begin_send-IsDelivering rs ds n r last v =
      let (e, rest, pre) = in_flight-begin_send last r in
      same_batch rs ds rest n r (begin_send last r) v e pre

  next_request-cases :
      (r r' : Reporter A)
      → next_request r ≡ some r'
      → (r' ≡ begin_send false (record r { pending = false })) ⊎ (r' ≡ begin_send true r)
  unfolding next_request
  next_request-cases r r' e = ground arith

  pub on_request-IsDelivering :
      (rs ds : List A) (n : ℕ) (r r' : Reporter A)
      → IsDelivering rs ds n r
      → next_request r ≡ some r'
      → IsDelivering rs ds n r'
  on_request-IsDelivering rs ds n r r' v e = elim (next_request-cases r r' e) [
    | inl h ↦ rw h (
        begin_send-IsDelivering rs ds n (record r { pending = false }) false
          (record {
            bounded = v.bounded;
            fits = v.fits;
            counts = v.counts;
            latest = v.latest;
            exact = v.exact;
          }))
    | inr h ↦ rw h (begin_send-IsDelivering rs ds n r true v)
  ]

  pub on_answer-IsDelivering :
      (rs ds batch : List A) (n : ℕ) (r r' : Reporter A) (last : Bool)
      → IsDelivering rs ds n r
      → r.sender ≡ sending last batch
      → end_send (ok tt) r ≡ ok r'
      → IsDelivering rs (ds ++ batch) n r'
  unfolding after_send
  on_answer-IsDelivering rs ds batch n r r' last v at e =
      let flying : in_flight r.sender ≡ batch = rw at refl in
      let b = r.batch in
      let done = end_send-ok r last batch at (omega (arith, v.fits, ap length flying)) in
      let at_batch : r'.batch ≡ drop (length batch) b = ground arith in
      let idle : in_flight r'.sender ≡ [] = ground arith in
      let size : length r'.batch ≡ length b - length batch =
        ap length at_batch ∙ length-drop (length batch) b in
      let fits : length batch ≤ length b = omega (arith, v.fits, ap length flying) in
      record {
        bounded = omega (arith, size, v.bounded);
        fits = omega (arith, ap length idle);
        counts = omega (arith, size, fits, v.counts, length-append ds batch);
        latest =
            at_batch
            ∙ ap (λ x. drop (length batch) x) v.latest
            ∙ drop-drop (length batch) (n + length ds) rs
            ∙ ap (λ x. drop x rs) (omega (arith, length-append ds batch));
        exact = λ z.
            let (rest, pre, whole) = v.exact z in
            let pre' : b ≡ batch ++ rest = pre ∙ ap (λ x. x ++ rest) flying in
            let left : r'.batch ≡ rest =
              at_batch
              ∙ ap (λ x. drop (length batch) x) pre'
              ∙ drop-append (length batch) batch rest refl in
            (
              rest,
              left ∙ ap (λ x. x ++ rest) (sym idle),
              whole
                  ∙ ap (λ x. ds ++ x) pre'
                  ∙ sym (append_assoc ds batch rest)
                  ∙ ap (λ x. (ds ++ batch) ++ x) (sym left),
            );
      }

  pub on_failure-IsDelivering :
      (rs ds batch : List A) (n : ℕ) (r r' : Reporter A) (last : Bool) (x : Error)
      → IsDelivering rs ds n r
      → r.sender ≡ sending last batch
      → end_send (err x) r ≡ ok r'
      → IsDelivering rs ds n r'
  unfolding end_send
  on_failure-IsDelivering rs ds batch n r r' last x v at e =
      let done : end_send (err x) r ≡ ok (record r { sender = after_send last (err x) }) =
        rw at refl in
      let same : r' ≡ record r { sender = after_send last (err x) } = ground arith in
      let idle : in_flight r'.sender ≡ [] =
        ap (λ y. in_flight y.sender) same ∙ in_flight-after_send last (err x) in
      same_batch rs ds r.batch n r r' v (ap (λ y. y.batch) same) (sym (ap (λ s. s ++ r.batch) idle))

  pub same_sender :
      (rs ds : List A) (n : ℕ) (r r' : Reporter A)
      → IsDelivering rs ds n r
      → r'.batch ≡ r.batch
      → r'.sender ≡ r.sender
      → IsDelivering rs ds n r'
  same_sender rs ds n r r' v e s = record {
    bounded = rw e v.bounded;
    fits = rw (e, s) v.fits;
    counts = rw e v.counts;
    latest = rw e v.latest;
    exact = rw (e, s) v.exact;
  }

  pub tick-batch :
      (now : Time) (r : Reporter A)
      → ((tick c now r).batch ≡ r.batch) × ((tick c now r).sender ≡ r.sender)
  unfolding tick enqueue_send
  tick-batch now r = ground arith
