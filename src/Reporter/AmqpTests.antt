-- ===== src/Reporter/AmqpTests.antt =====
-- A broker and a serialization at which the theorems on the AMQP reporter are applied, and runs of it.
use zipkin_go.Base.{
  ℕ, zero, suc, ◌+◌, ◌≡◌, ◌≢◌, refl, arith, List, [], ◌∷◌, ◌++◌, map, Str, codes, length, Outcome,
  ok, err, panic, Panic, Error, other, valid_duration_required,
}
use zipkin_go.Reporter.Interface.{send_all}
use zipkin_go.Reporter.Amqp
use zipkin_go.Reporter.Amqp.{
  Broker, Publish, Session, RmqReporter, exchange_option, queue_option, amqp_reporter,
  connection_option,
}
use zipkin_go.Reporter.Amqp.Delivery.{publishing, Chosen, send_all-Accounts}
use zipkin_go.Reporter.Amqp.Options.{life, life-exchange_option}

-- Zero stands for a span that cannot be serialized, and one for a message that cannot be published.
abbrev one_span : List ℕ → Outcome Str
one_span [] = ok []
one_span (zero ∷ spans) = err valid_duration_required
one_span (suc n ∷ spans) = ok (n ∷ [])

one_span-returns : (spans : List ℕ) (q : Panic) → one_span spans ≢ panic q
one_span-returns [] q = λ h. cc
one_span-returns (zero ∷ spans) q = λ h. cc
one_span-returns (suc n ∷ spans) q = λ h. cc

abbrev route : Str → Publish → List Publish → Outcome (Unit {0}) × List Publish
route [] m w = (err (other (codes "closed")), w)
route (zero ∷ body) m w = (err (other (codes "closed")), w)
route (suc c ∷ body) m w = (ok tt, w ++ m ∷ [])

abbrev agree : {A : Type 0} → A → Unit {0} → List Publish → Outcome (Unit {0}) × List Publish
agree _ _ w = (ok tt, w)

-- The broker is the list of the messages that it accepted. There is one connection and one channel.
abbrev broker : Broker (Unit {0}) (Unit {0}) (List Publish)
broker = record {
  dial = λ address w. (ok tt, w);
  open_channel = λ conn w. (ok tt, w);
  queue_declare = agree;
  exchange_declare = agree;
  queue_bind = agree;
  publish = λ m h w. route m.body m w;
  close_channel = λ h w. (ok tt, w);
  close_connection = λ conn w. (ok tt, w);
}

route-keeps :
    (body : Str) (m : Publish) (w w' : List Publish)
    → route body m w ≡ (ok tt, w')
    → w' ≡ w ++ m ∷ []
route-keeps [] m w w' h = absurd (ground arith)
route-keeps (zero ∷ body) m w w' h = absurd (ground arith)
route-keeps (suc c ∷ body) m w w' h = ground arith

route-drops :
    (body : Str) (m : Publish) (w w' : List Publish) (e : Error)
    → route body m w ≡ (err e, w')
    → w' ≡ w
route-drops [] m w w' e h = ground arith
route-drops (zero ∷ body) m w w' e h = ground arith
route-drops (suc c ∷ body) m w w' e h = absurd (ground arith)

route-returns :
    (body : Str) (m : Publish) (w : List Publish) (p : Panic) → (route body m w).0 ≢ panic p
route-returns [] m w p = λ h. cc
route-returns (zero ∷ body) m w p = λ h. cc
route-returns (suc c ∷ body) m w p = λ h. cc

abbrev text : Error → Str
text e = codes "no"

abbrev session : Session (Unit {0}) (Unit {0}) (List Publish)
session = record {
  reporter = record { channel = tt; conn = tt; exchange = codes "zipkin"; queue = codes "zipkin" };
  broker = [];
  log = [];
}

makes_session :
    Amqp.new_reporter broker (codes "amqp://localhost") [] [] ≡ (ok session.reporter, [])
unfolding Amqp.new_reporter
makes_session = refl

send_all-Accounts_example :
    (s' : Session (Unit {0}) (Unit {0}) (List Publish)) × (send_all
        (amqp_reporter broker text one_span)
        (3 ∷ 0 ∷ 1 ∷ [])
        session
      ≡ ok s')
    × ((ms : List Str) × Chosen broker one_span tt (3 ∷ 0 ∷ 1 ∷ []) ms
        × (s'.broker ≡ map publishing ms)
        × (length ms + length s'.log ≡ 3)
        × (s'.reporter ≡ session.reporter))
send_all-Accounts_example =
    send_all-Accounts broker text one_span (λ w. w) (λ m h w w' e. route-keeps m.body m w w' e)
      (λ m h w w' x e. route-drops m.body m w w' x e) (λ m h w p. route-returns m.body m w p)
      one_span-returns (3 ∷ 0 ∷ 1 ∷ []) session

life-exchange_option_example :
    life broker text one_span
      (codes "amqp://localhost")
      (exchange_option (codes "spans") ∷ queue_option (codes "spans") ∷ [])
      (3 ∷ [])
      []
    ≡ ok ((ok tt, []), publishing (2 ∷ []) ∷ [])
unfolding life Amqp.new_reporter send_all amqp_reporter
life-exchange_option_example =
    life-exchange_option broker text one_span (codes "spans") (codes "spans")
      (codes "amqp://localhost") [] (3 ∷ []) []
