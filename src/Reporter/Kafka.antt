-- ===== src/Reporter/Kafka.antt =====
-- reporter/kafka/kafka.go: each span becomes one message for the producer, and `logErrors` reads what
-- the producer could not deliver. The producer of package sarama is a parameter.
pub mod Steps
use zipkin_go.Base.{
  Option, none, some, List, [], ◌∷◌, ◌++◌, Str, codes, Outcome, ok, err, panic, ◌>>=◌, Error,
}
use zipkin_go.Reporter.Interface.{SpanSerializer, SpanReporter}

pub record ProducerMessage : Type 0 where
  pub topic : Str
  pub key : Option Str
  pub value : Str

-- The interface `sarama.AsyncProducer` over its state: its channel `Input`, what its channel `Errors`
-- offers next, and `Close`.
pub record AsyncProducer (S : Type 0) : Type 0 where
  pub input : ProducerMessage → S → S
  pub next_error : S → Option ((ProducerMessage × Error) × S)
  pub close : S → Outcome (Unit {0}) × S

-- What the options set. A producer is given by its state.
pub record Settings (A S : Type 0) : Type 0 where
  pub producer : Option S
  pub topic : Str
  pub serializer : SpanSerializer A

-- A line that the logger prints: of a span that was not serialized, or of a message that was not
-- produced.
pub data LogLine : Type 0 where
  unserialized : Error → LogLine
  unproduced : ProducerMessage → Error → LogLine

pub record KafkaReporter (A S : Type 0) : Type 0 where
  pub producer : S
  pub topic : Str
  pub serializer : SpanSerializer A
  pub log : List LogLine

abbrev pub default_kafka_topic : Str
default_kafka_topic = codes "zipkin"

abbrev pub KafkaOption : Type 0 → Type 0 → Type 0
KafkaOption A S = Settings A S → Settings A S

-- A producer that was given is not made.
abbrev pub find_producer : {S : Type 0} → Outcome S → Option S → Outcome S
find_producer made none = made
find_producer made (some p) = ok p

module _ {A S : Type 0} where
  unfoldable pub producer_option : Option S → KafkaOption A S
  producer_option p c = record c { producer = p }

  unfoldable pub topic_option : Str → KafkaOption A S
  topic_option t c = record c { topic = t }

  -- A nil serializer leaves the default.
  unfoldable pub kafka_serializer : Option (SpanSerializer A) → KafkaOption A S
  kafka_serializer none c = c
  kafka_serializer (some s) c = record c { serializer = s }

  abbrev pub run_kafka_options : List (KafkaOption A S) → KafkaOption A S
  run_kafka_options [] c = c
  run_kafka_options (o ∷ os) c = run_kafka_options os (o c)

  -- `new_async_producer` is `sarama.NewAsyncProducer` and `json` the JSON encoding of spans.
  unfoldable pub new_reporter :
      (List Str → Outcome S)
      → SpanSerializer A
      → List Str
      → List (KafkaOption A S)
      → Outcome (KafkaReporter A S)
  new_reporter new_async_producer json address opts =
      let initial : Settings A S = record {
        producer = none;
        topic = default_kafka_topic;
        serializer = json;
      } in
      let c = run_kafka_options opts initial in
      (do
        p ← find_producer (new_async_producer address) c.producer
        ok (record { producer = p; topic = c.topic; serializer = c.serializer; log = [] }))

module _ {A S : Type 0} (p : AsyncProducer S) where
  abbrev pub produce : Outcome Str → KafkaReporter A S → Outcome (KafkaReporter A S)
  produce (ok m) r = ok (record r {
    producer = p.input (record { topic = r.topic; key = none; value = m }) r.producer;
  })
  produce (err e) r = ok (record r { log = r.log ++ unserialized e ∷ [] })
  produce (panic q) r = panic q

  -- Zipkin expects the message to be wrapped in an array.
  unfoldable pub send_kafka : A → KafkaReporter A S → Outcome (KafkaReporter A S)
  send_kafka s r = produce (r.serializer.serialize (s ∷ [])) r

  abbrev pub log_next :
      Option ((ProducerMessage × Error) × S) → KafkaReporter A S → Option (KafkaReporter A S)
  log_next none r = none
  log_next (some ((m, e), s)) r =
      some (record r { producer = s; log = r.log ++ unproduced m e ∷ [] })

  -- One round of `logErrors`, which waits where there is no error.
  unfoldable pub log_errors : KafkaReporter A S → Option (KafkaReporter A S)
  log_errors r = log_next (p.next_error r.producer) r

  unfoldable pub close_kafka : KafkaReporter A S → Outcome (Unit {0}) × KafkaReporter A S
  close_kafka r = let (x, s) = p.close r.producer in (x, record r { producer = s })

  unfoldable pub kafka_reporter : SpanReporter A (KafkaReporter A S)
  unfolding send_kafka close_kafka
  kafka_reporter = record { send = send_kafka; close = close_kafka }
