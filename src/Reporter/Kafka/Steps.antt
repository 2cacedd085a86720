-- ===== src/Reporter/Kafka/Steps.antt =====
-- The steps of the Kafka reporter: calls of `Send`, and rounds of `logErrors` on its own goroutine.
use zipkin_go.Base.{
  ℕ, suc, ◌+◌, ◌≡◌, ◌≢◌, refl, sym, ap, ◌∙◌, arith, inl, inr, Option, none, some, List, [], ◌∷◌,
  ◌++◌, append_assoc, append-nil, Str, length, length-append, Outcome, Outcome-cases, ok, panic,
  Panic, Error,
}
use zipkin_go.Reporter.Interface.{SpanSerializer, send_all}
use zipkin_go.Reporter.Interface.Refines.{
  record_all, encode_all, encode_all-append, send_all-refines,
}
use zipkin_go.Reporter.Kafka.{
  ProducerMessage, AsyncProducer, KafkaReporter, send_kafka, log_errors, log_next, kafka_reporter,
  unserialized, unproduced,
}

abbrev pub of_body : Str → Outcome Str → List ProducerMessage
of_body t (ok m) = record { topic = t; key = none; value = m } ∷ []
of_body t _ = []

abbrev pub count_refused : Outcome Str → ℕ
count_refused (ok m) = 0
count_refused _ = 1

module _ {A S : Type 0} (p : AsyncProducer S) (t : Str) (z : SpanSerializer A) where
  -- The message for a span, if it can be serialized.
  abbrev pub messages : A → List ProducerMessage
  messages span = of_body t (z.serialize (span ∷ []))

  -- How many of some spans cannot be serialized.
  abbrev pub refused : List A → ℕ
  refused [] = 0
  refused (span ∷ spans) = count_refused (z.serialize (span ∷ [])) + refused spans

  -- The reporter has the topic and the serializer that it was made with.
  pub record IsUsable (r : KafkaReporter A S) : Type 0 where
    pub at_topic : r.topic ≡ t
    pub at_serializer : r.serializer ≡ z

  module _ (taken : S → List ProducerMessage)
      (keeps : (m : ProducerMessage) (s : S) → taken (p.input m s) ≡ taken s ++ m ∷ [])
      (returns : (spans : List A) (q : Panic) → z.serialize spans ≢ panic q) where
    -- What one call does to the producer and to the log.
    pub send_kafka-cases :
        (span : A) (r : KafkaReporter A S)
        → IsUsable r
        → (r' : KafkaReporter A S) × (send_kafka p span r ≡ ok r')
          × IsUsable r'
          × (taken r'.producer ≡ taken r.producer ++ messages span)
          × (length r'.log ≡ length r.log + refused (span ∷ []))
    unfolding send_kafka
    send_kafka-cases span r u =
        elim (Outcome-cases (z.serialize (span ∷ [])) (returns (span ∷ []))) [
          | inl (m, e) ↦ (
            record r {
              producer = p.input (record { topic = r.topic; key = none; value = m }) r.producer;
            },
            rw (u.at_serializer, e) refl,
            record { at_topic = u.at_topic; at_serializer = u.at_serializer },
            rw e (
                keeps _ r.producer
                ∙ ap (λ x. taken r.producer ++ record { topic = x; key = none; value = m } ∷ [])
                    u.at_topic),
            rw e (omega arith),
          )
          | inr (x, e) ↦ (
            record r { log = r.log ++ unserialized x ∷ [] },
            rw (u.at_serializer, e) refl,
            record { at_topic = u.at_topic; at_serializer = u.at_serializer },
            rw e (sym (append-nil (taken r.producer))),
            rw e (omega (arith, length-append r.log (unserialized x ∷ []))),
          )
        ]

    -- If the serializer does not panic, and the producer takes the messages of its channel in their order,
    -- then any calls of `Send` on a reporter return, keep its topic and its serializer, and the producer
    -- takes, one message on that topic for one span, those spans that a recorder holds after the same
    -- calls and that can be serialized.
    pub send_all-refines_kafka :
        (spans : List A) (r : KafkaReporter A S)
        → IsUsable r
        → (r' : KafkaReporter A S) × (send_all (kafka_reporter p) spans r ≡ ok r')
          × IsUsable r'
          × (taken r'.producer ≡ taken r.producer ++ encode_all messages (record_all spans []))
    unfolding kafka_reporter
    send_all-refines_kafka spans r u =
        send_all-refines messages (kafka_reporter p) IsUsable (λ x. taken x.producer)
          (λ span x v. let (x', e, v', at, _) = send_kafka-cases span x v in (x', e, v', at)) spans
          r u

  -- Calls of `Send` and rounds of `logErrors` in any order, from a reporter. The indices are the spans that
  -- were sent and how many errors of the producer were read.
  pub data Run (start : KafkaReporter A S) : List A → ℕ → KafkaReporter A S → Type 0 where
    began : Run start [] 0 start
    on_send :
        {spans : List A} {n : ℕ} {r : KafkaReporter A S} (span : A) (r' : KafkaReporter A S)
        → Run start spans n r
        → send_kafka p span r ≡ ok r'
        → Run start (spans ++ span ∷ []) n r'
    on_error :
        {spans : List A} {n : ℕ} {r : KafkaReporter A S} (r' : KafkaReporter A S)
        → Run start spans n r
        → log_errors p r ≡ some r'
        → Run start spans (suc n) r'

  refused-append :
      (xs : List A) (span : A) → refused (xs ++ span ∷ []) ≡ refused xs + refused (span ∷ [])
  refused-append [] span = omega arith
  refused-append (x ∷ xs) span = omega (arith, refused-append xs span)

  log_next-cases :
      (x : Option ((ProducerMessage × Error) × S)) (r r' : KafkaReporter A S)
      → log_next p x r ≡ some r'
      → (m : ProducerMessage) × (e : Error) × (s : S) × (x ≡ some ((m, e), s))
        × (r' ≡ record r { producer = s; log = r.log ++ unproduced m e ∷ [] })
  log_next-cases none r r' h = absurd (ground arith)
  log_next-cases (some ((m, e), s)) r r' h = (m, e, s, refl, ground arith)

  module _ (taken : S → List ProducerMessage)
      (keeps : (m : ProducerMessage) (s : S) → taken (p.input m s) ≡ taken s ++ m ∷ [])
      (reads : (s s' : S) (x : ProducerMessage × Error)
        → p.next_error s ≡ some (x, s')
        → taken s' ≡ taken s)
      (returns : (spans : List A) (q : Panic) → z.serialize spans ≢ panic q) where
    -- If the serializer does not panic, and the producer takes the messages of its channel in their order,
    -- which reading an error does not change, then after any calls of `Send` and rounds of `logErrors` on a
    -- reporter, in any order, it has its topic and its serializer, the producer has taken one message on
    -- that topic for each span that can be serialized, in the order of the calls, and one line was logged
    -- for each other span and for each error that was read.
    pub Run-accounts :
        {start r : KafkaReporter A S} {spans : List A} {n : ℕ}
        → IsUsable start
        → Run start spans n r
        → IsUsable r
          × (taken r.producer ≡ taken start.producer ++ encode_all messages spans)
          × (length r.log ≡ length start.log + n + refused spans)
    unfolding log_errors
    Run-accounts u began = (u, sym (append-nil (taken _)), omega arith)
    Run-accounts {start} u (on_send {spans} {n} {r} span r' run h) =
        let (v, at, lines) = Run-accounts u run in
        let (r1, e, v1, at1, lines1) = send_kafka-cases taken keeps returns span r v in
        let same : r1 ≡ r' = ground arith in
        (
          rw (sym same) v1,
          ap (λ x. taken x.producer) (sym same)
              ∙ at1
              ∙ ap (λ x. x ++ messages span) at
              ∙ append_assoc (taken start.producer) (encode_all messages spans) (messages span)
              ∙ ap (λ x. taken start.producer ++ x) (sym (encode_all-append messages spans span)),
          omega (arith, ap (λ x. length x.log) same, lines1, lines, refused-append spans span),
        )
    Run-accounts u (on_error {r} r' run h) =
        let (v, at, lines) = Run-accounts u run in
        let (m, e, s, found, same) = log_next-cases (p.next_error r.producer) r r' h in
        (
          rw same (record { at_topic = v.at_topic; at_serializer = v.at_serializer }),
          ap (λ x. taken x.producer) same ∙ reads r.producer s (m, e) found ∙ at,
          omega (
            arith,
            ap (λ x. length x.log) same,
            length-append r.log (unproduced m e ∷ []),
            lines,
          ),
        )
