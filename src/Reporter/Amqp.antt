-- ===== src/Reporter/Amqp.antt =====
-- reporter/amqp/amqp.go: each span becomes one message on an exchange of RabbitMQ. What a connection and
-- a channel of package amqp091 do to the broker is a parameter.
pub mod Options
pub mod Delivery
use zipkin_go.Base.{
  Bool, true, false, Option, none, some, List, [], ◌∷◌, ◌++◌, Str, codes, Outcome, ok, err, panic,
  ◌>>=◌, Error, other,
}
use zipkin_go.Reporter.Interface.{SpanReporter}

-- The arguments of `QueueDeclare`, `ExchangeDeclare`, `QueueBind` and `Publish`, whose tables are nil.
pub record QueueDeclare : Type 0 where
  pub name : Str
  pub durable : Bool
  pub auto_delete : Bool
  pub exclusive : Bool
  pub no_wait : Bool

pub record ExchangeDeclare : Type 0 where
  pub name : Str
  pub kind : Str
  pub durable : Bool
  pub auto_delete : Bool
  pub internal : Bool
  pub no_wait : Bool

pub record QueueBind : Type 0 where
  pub name : Str
  pub key : Str
  pub exchange : Str
  pub no_wait : Bool

pub record Publish : Type 0 where
  pub exchange : Str
  pub key : Str
  pub mandatory : Bool
  pub immediate : Bool
  pub body : Str

-- Package amqp091, over connections `C`, channels `H` and the state `W` of the broker.
pub record Broker (C H W : Type 0) : Type 0 where
  pub dial : Str → W → Outcome C × W
  pub open_channel : C → W → Outcome H × W
  pub queue_declare : QueueDeclare → H → W → Outcome (Unit {0}) × W
  pub exchange_declare : ExchangeDeclare → H → W → Outcome (Unit {0}) × W
  pub queue_bind : QueueBind → H → W → Outcome (Unit {0}) × W
  pub publish : Publish → H → W → Outcome (Unit {0}) × W
  pub close_channel : H → W → Outcome (Unit {0}) × W
  pub close_connection : C → W → Outcome (Unit {0}) × W

abbrev pub default_rmq_routing_key : Str
default_rmq_routing_key = codes "zipkin"

abbrev pub default_rmq_exchange : Str
default_rmq_exchange = codes "zipkin"

abbrev pub default_exchange_kind : Str
default_exchange_kind = codes "direct"

-- What the options set.
pub record Settings (C H : Type 0) : Type 0 where
  pub channel : Option H
  pub conn : Option C
  pub exchange : Str
  pub queue : Str

pub record RmqReporter (C H : Type 0) : Type 0 where
  pub channel : H
  pub conn : C
  pub exchange : Str
  pub queue : Str

abbrev pub AmqpOption : Type 0 → Type 0 → Type 0
AmqpOption C H = Settings C H → Settings C H

module _ {C H : Type 0} where
  unfoldable pub exchange_option : Str → AmqpOption C H
  exchange_option x c = record c { exchange = x }

  unfoldable pub queue_option : Str → AmqpOption C H
  queue_option q c = record c { queue = q }

  unfoldable pub channel_option : Option H → AmqpOption C H
  channel_option h c = record c { channel = h }

  unfoldable pub connection_option : Option C → AmqpOption C H
  connection_option conn c = record c { conn = conn }

  abbrev pub run_amqp_options : List (AmqpOption C H) → AmqpOption C H
  run_amqp_options [] c = c
  run_amqp_options (o ∷ os) c = run_amqp_options os (o c)

-- A call that returns, and what follows if it returned no error.
abbrev pub and_then : {A B W : Type 0} → Outcome A × W → (A → W → Outcome B × W) → Outcome B × W
and_then (ok a, w) f = f a w
and_then (err e, w) f = (err e, w)
and_then (panic p, w) f = (panic p, w)

-- What an option gave, or else what is made.
abbrev pub or_make : {A W : Type 0} → Option A → (W → Outcome A × W) → W → Outcome A × W
or_make none make w = make w
or_make (some a) make w = (ok a, w)

-- The loop over the checks.
abbrev pub run_checks :
    {W : Type 0} → List (W → Outcome (Unit {0}) × W) → W → Outcome (Unit {0}) × W
run_checks [] w = (ok tt, w)
run_checks (check ∷ checks) w = and_then (check w) (λ _. run_checks checks)

module _ {C H W : Type 0} (b : Broker C H W) where
  unfoldable pub queue_verify : H → W → Outcome (Unit {0}) × W
  queue_verify = b.queue_declare (record {
    name = default_rmq_exchange;
    durable = true;
    auto_delete = false;
    exclusive = false;
    no_wait = false;
  })

  unfoldable pub exchange_verify : H → W → Outcome (Unit {0}) × W
  exchange_verify = b.exchange_declare (record {
    name = default_rmq_exchange;
    kind = default_exchange_kind;
    durable = true;
    auto_delete = false;
    internal = false;
    no_wait = false;
  })

  unfoldable pub queue_bind_verify : H → W → Outcome (Unit {0}) × W
  queue_bind_verify = b.queue_bind (record {
    name = default_rmq_routing_key;
    key = default_rmq_routing_key;
    exchange = default_rmq_exchange;
    no_wait = false;
  })

  unfoldable pub connect : Str → Settings C H → W → Outcome (RmqReporter C H) × W
  unfolding queue_verify exchange_verify queue_bind_verify
  connect address c w = and_then (or_make c.conn (b.dial address) w) (λ conn w1.
      and_then (or_make c.channel (b.open_channel conn) w1) (λ h w2.
        and_then (run_checks (queue_verify h ∷ exchange_verify h ∷ queue_bind_verify h ∷ []) w2)
          (λ _ w3. (
            ok (record { channel = h; conn = conn; exchange = c.exchange; queue = c.queue }),
            w3,
          ))))

  unfoldable pub new_reporter : Str → List (AmqpOption C H) → W → Outcome (RmqReporter C H) × W
  unfolding connect
  new_reporter address opts w =
      connect address
        (run_amqp_options opts (record {
          channel = none;
          conn = none;
          exchange = default_rmq_exchange;
          queue = default_rmq_routing_key;
        }))
        w

  unfoldable pub close_rmq : RmqReporter C H → W → Outcome (Unit {0}) × W
  close_rmq r w = and_then (b.close_channel r.channel w) (λ _ w1. b.close_connection r.conn w1)

-- A reporter, the broker, and what `logErrors` printed of the errors that `Send` put on the channel `e`:
-- that has no room, so that `Send` ends when its error was taken.
pub record Session (C H W : Type 0) : Type 0 where
  pub reporter : RmqReporter C H
  pub broker : W
  pub log : List Error

-- `fmt.Errorf` with the text of an error.
abbrev pub with_text : (Error → Str) → Str → Error → Error
with_text error_text text e = other (text ++ error_text e)

-- `marshal` is `json.Marshal` of a slice of spans.
module _ {C H W A : Type 0} (b : Broker C H W) (error_text : Error → Str)
    (marshal : List A → Outcome Str) where
  abbrev pub log_error : Error → Session C H W → Session C H W
  log_error e s = record s { log = s.log ++ e ∷ [] }

  abbrev pub published : Outcome (Unit {0}) × W → Session C H W → Outcome (Session C H W)
  published (ok _, w) s = ok (record s { broker = w })
  published (err e, w) s = ok (
      log_error (with_text error_text (codes "failed when publishing the span: ") e)
        (record s { broker = w }))
  published (panic p, w) s = panic p

  abbrev pub publish_body : Outcome Str → Session C H W → Outcome (Session C H W)
  publish_body (ok m) s =
      published
        (b.publish
          (record {
            exchange = default_rmq_exchange;
            key = default_rmq_routing_key;
            mandatory = false;
            immediate = false;
            body = m;
          })
          s.reporter.channel s.broker)
        s
  publish_body (err e) s =
      ok (log_error (with_text error_text (codes "failed when marshalling the span: ") e) s)
  publish_body (panic p) s = panic p

  -- Zipkin expects the message to be wrapped in an array.
  unfoldable pub send_rmq : A → Session C H W → Outcome (Session C H W)
  send_rmq span s = publish_body (marshal (span ∷ [])) s

  unfoldable pub amqp_reporter : SpanReporter A (Session C H W)
  unfolding send_rmq close_rmq
  amqp_reporter = record {
    send = send_rmq;
    close = λ s. let (x, w) = close_rmq b s.reporter s.broker in (x, record s { broker = w });
  }
