-- ===== src/Reporter/SinkTests.antt =====
-- A producer, a broker and serializers at which the theorems on the reporters for Kafka and AMQP are
-- applied, and runs of these reporters.
use zipkin_go.Base.{
  ℕ, zero, suc, ◌≡◌, ◌≢◌, refl, arith, Option, none, some, List, [], ◌∷◌, ◌++◌, Str, codes, length,
  Outcome, ok, err, panic, Panic, Error, other, valid_duration_required,
}
use zipkin_go.Reporter.Interface.{SpanSerializer, send_all}
use zipkin_go.Reporter.Kafka
use zipkin_go.Reporter.Kafka.{
  ProducerMessage, AsyncProducer, KafkaReporter, topic_option, producer_option, send_kafka,
  log_errors, kafka_reporter, unserialized, unproduced,
}
use zipkin_go.Reporter.Kafka.Steps.{
  IsUsable, send_all-refines_kafka, Run, began, on_send, on_error, Run-accounts,
}
use zipkin_go.Reporter.Log.{new_log_reporter, send_log}

-- Zero stands for a span that cannot be serialized.
abbrev one_span : List ℕ → Outcome Str
one_span [] = ok []
one_span (zero ∷ spans) = err valid_duration_required
one_span (suc n ∷ spans) = ok (suc n ∷ [])

one_span-returns : (spans : List ℕ) (q : Panic) → one_span spans ≢ panic q
one_span-returns [] q = λ h. cc
one_span-returns (zero ∷ spans) q = λ h. cc
one_span-returns (suc n ∷ spans) q = λ h. cc

abbrev serializer : SpanSerializer ℕ
serializer = record { serialize = one_span; content_type = codes "application/json" }

-- What a producer took, and how many of these messages it will report as failed.
abbrev Produced : Type 0
Produced = List ProducerMessage × ℕ

abbrev fail_next : List ProducerMessage → ℕ → Option ((ProducerMessage × Error) × Produced)
fail_next ms zero = none
fail_next [] (suc k) = none
fail_next (m ∷ ms) (suc k) = some ((m, other (codes "lost")), (m ∷ ms, k))

abbrev producer : AsyncProducer Produced
producer = record {
  input = λ m s. (s.0 ++ m ∷ [], s.1);
  next_error = λ s. fail_next s.0 s.1;
  close = λ s. (ok tt, s);
}

fail_next-took :
    (ms : List ProducerMessage) (k : ℕ) (s' : Produced) (x : ProducerMessage × Error)
    → fail_next ms k ≡ some (x, s')
    → s'.0 ≡ ms
fail_next-took ms zero s' x h = absurd (ground arith)
fail_next-took [] (suc k) s' x h = absurd (ground arith)
fail_next-took (m ∷ ms) (suc k) s' x h = ground arith

abbrev kafka : KafkaReporter ℕ Produced
kafka = record { producer = ([], 1); topic = codes "spans"; serializer = serializer; log = [] }

makes_kafka :
    Kafka.new_reporter
      (λ address. err (other (codes "no broker")))
      serializer
      []
      (topic_option (codes "spans") ∷ producer_option (some ([], 1)) ∷ [])
    ≡ ok kafka
unfolding Kafka.new_reporter producer_option topic_option
makes_kafka = refl

misses_kafka :
    Kafka.new_reporter {A = ℕ} {S = Produced}
      (λ address. err (other (codes "no broker")))
      serializer
      []
      []
    ≡ err (other (codes "no broker"))
unfolding Kafka.new_reporter
misses_kafka = refl

abbrev message : ℕ → ProducerMessage
message n = record { topic = codes "spans"; key = none; value = n ∷ [] }

kafka-IsUsable : IsUsable producer (codes "spans") serializer kafka
kafka-IsUsable = record { at_topic = refl; at_serializer = refl }

send_all-refines_kafka_example :
    (r' : KafkaReporter ℕ Produced) × (send_all (kafka_reporter producer) (4 ∷ 0 ∷ 5 ∷ []) kafka
      ≡ ok r')
    × IsUsable producer (codes "spans") serializer r'
    × (r'.producer.0 ≡ message 4 ∷ message 5 ∷ [])
unfolding zipkin_go.Reporter.Recorder.send
send_all-refines_kafka_example =
    send_all-refines_kafka producer (codes "spans") serializer (λ s. s.0) (λ m s. refl)
      one_span-returns (4 ∷ 0 ∷ 5 ∷ []) kafka kafka-IsUsable

abbrev after_error : KafkaReporter ℕ Produced
after_error = record {
  producer = (message 4 ∷ [], 0);
  topic = codes "spans";
  serializer = serializer;
  log = unproduced (message 4) (other (codes "lost")) ∷ [];
}

abbrev after_refusal : KafkaReporter ℕ Produced
after_refusal = record after_error {
  log = after_error.log ++ unserialized valid_duration_required ∷ [];
}

runs_kafka : Run producer (codes "spans") serializer kafka (4 ∷ 0 ∷ []) 1 after_refusal
unfolding send_kafka log_errors
runs_kafka =
    on_send 0 after_refusal
      (on_error after_error (on_send 4 (record kafka { producer = (message 4 ∷ [], 1) }) began refl)
        refl)
      refl

Run-accounts_example :
    IsUsable producer (codes "spans") serializer after_refusal
    × (after_refusal.producer.0 ≡ message 4 ∷ [])
    × (length after_refusal.log ≡ 2)
Run-accounts_example =
    Run-accounts producer (codes "spans") serializer (λ s. s.0) (λ m s. refl)
      (λ s s' x h. fail_next-took s.0 s.1 s' x h) one_span-returns kafka-IsUsable runs_kafka

prints :
    send_log (λ s. ok s) (codes "now") (codes "{}") (new_log_reporter [] none)
    ≡ ok (codes "now:\n{}\n\n" ∷ [])
unfolding send_log new_log_reporter
prints = refl
