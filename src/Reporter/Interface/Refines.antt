-- ===== src/Reporter/Interface/Refines.antt =====
-- What a reporter promises: it hands on what the recorder of reporter/recorder/recorder.go records, span
-- by span and in their order.
use zipkin_go.Base.{◌≡◌, refl, sym, ap, ◌∙◌, List, [], ◌∷◌, ◌++◌, append_assoc, append-nil, ok}
use zipkin_go.Reporter.Interface.{SpanReporter, send_all}
use zipkin_go.Reporter.Recorder.{send}

module _ {A : Type 0} where
  -- What a recorder holds after it was sent some spans.
  abbrev pub record_all : List A → List A → List A
  record_all [] recorded = recorded
  record_all (span ∷ spans) recorded = record_all spans (send span recorded)

  pub record_all-append : (spans recorded : List A) → record_all spans recorded ≡ recorded ++ spans
  unfolding send
  record_all-append [] recorded = sym (append-nil recorded)
  record_all-append (span ∷ spans) recorded =
      record_all-append spans (recorded ++ span ∷ []) ∙ append_assoc recorded (span ∷ []) spans

module _ {A B : Type 0} (encode : A → List B) where
  -- The messages for some spans.
  abbrev pub encode_all : List A → List B
  encode_all [] = []
  encode_all (span ∷ spans) = encode span ++ encode_all spans

  pub encode_all-append :
      (xs : List A) (span : A) → encode_all (xs ++ span ∷ []) ≡ encode_all xs ++ encode span
  encode_all-append [] span = append-nil (encode span)
  encode_all-append (x ∷ xs) span =
      ap (λ y. encode x ++ y) (encode_all-append xs span)
      ∙ sym (append_assoc (encode x) (encode_all xs) (encode span))

  module _ {R : Type 0} (i : SpanReporter A R) (IsUsable : R → Type 0) (out : R → List B) where
    -- `Send` returns, keeps the reporter usable, and adds the messages of its span to those that the
    -- reporter handed on.
    abbrev pub SendsEach : Type 0
    SendsEach =
        (span : A) (r : R)
        → IsUsable r
        → (r' : R) × (i.send span r ≡ ok r') × IsUsable r' × (out r' ≡ out r ++ encode span)

    -- What was handed on after any calls are the messages of what a recorder holds after these calls.
    pub send_all-refines :
        SendsEach
        → (spans : List A) (r : R) → IsUsable r
        → (r' : R) × (send_all i spans r ≡ ok r')
          × IsUsable r'
          × (out r' ≡ out r ++ encode_all (record_all spans []))
    unfolding send_all
    send_all-refines each [] r usable = (r, refl, usable, sym (append-nil (out r)))
    send_all-refines each (span ∷ spans) r usable =
        let (r1, e, usable1, at) = each span r usable in
        let (r2, e', usable2, at') = send_all-refines each spans r1 usable1 in
        (
          r2,
          rw e e',
          usable2,
          at'
              ∙ ap (λ x. x ++ encode_all (record_all spans [])) at
              ∙ append_assoc (out r) (encode span) (encode_all (record_all spans []))
              ∙ ap (λ x. out r ++ (encode span ++ encode_all x)) (record_all-append spans [])
              ∙ ap (λ x. out r ++ encode_all x) (sym (record_all-append (span ∷ spans) [])),
        )
