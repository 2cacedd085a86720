-- ===== src/Reporter/Amqp/Delivery.antt =====
-- What `Send` of the AMQP reporter has the client publish.
use zipkin_go.Base.{
  ◌+◌, ◌≡◌, ◌≢◌, refl, sym, ap, ◌∙◌, arith, false, List, [], ◌∷◌, ◌++◌, append_assoc, append-nil,
  map, Str, length, length-append, Outcome, ok, err, panic, Panic, Error,
}
use mathlib.Core.Path.{subst}
use zipkin_go.Reporter.Interface.{send_all}
use zipkin_go.Reporter.Amqp.{
  Broker, Publish, default_rmq_exchange, default_rmq_routing_key, Session, send_rmq, published,
  publish_body, amqp_reporter,
}

abbrev pub publishing : Str → Publish
publishing m = record {
  exchange = default_rmq_exchange;
  key = default_rmq_routing_key;
  mandatory = false;
  immediate = false;
  body = m;
}

module _ {C H W A : Type 0} (b : Broker C H W) (marshal : List A → Outcome Str) (h : H) where
  -- The bodies of the messages that were made of spans, in their order, but for the spans that could not
  -- be serialized, and those whose message the client refused to publish on the channel.
  pub data Chosen : List A → List Str → Type 0 where
    nothing : Chosen [] []
    kept :
        {spans : List A} {ms : List Str} (span : A) (m : Str)
        → marshal (span ∷ []) ≡ ok m
        → Chosen spans ms
        → Chosen (span ∷ spans) (m ∷ ms)
    unserialized :
        {spans : List A} {ms : List Str} (span : A) (e : Error)
        → marshal (span ∷ []) ≡ err e
        → Chosen spans ms
        → Chosen (span ∷ spans) ms
    unpublished :
        {spans : List A} {ms : List Str} (span : A) (m : Str) (w w' : W) (e : Error)
        → marshal (span ∷ []) ≡ ok m
        → b.publish (publishing m) h w ≡ (err e, w')
        → Chosen spans ms
        → Chosen (span ∷ spans) ms

module _ {C H W A : Type 0} (b : Broker C H W) (error_text : Error → Str)
    (marshal : List A → Outcome Str) (accepted : W → List Publish)
    (keeps : (m : Publish) (h : H) (w w' : W)
      → b.publish m h w ≡ (ok tt, w')
      → accepted w' ≡ accepted w ++ m ∷ [])
    (drops : (m : Publish) (h : H) (w w' : W) (e : Error)
      → b.publish m h w ≡ (err e, w')
      → accepted w' ≡ accepted w)
    (returns_publish : (m : Publish) (h : H) (w : W) (p : Panic) → (b.publish m h w).0 ≢ panic p)
    (returns_marshal : (spans : List A) (p : Panic) → marshal spans ≢ panic p) where
  -- The messages of some of the spans were accepted, and one line was logged for each of the others.
  abbrev pub Accounts : List A → Session C H W → Session C H W → Type 0
  Accounts spans s s' =
      (ms : List Str) × Chosen b marshal s.reporter.channel spans ms
      × (accepted s'.broker ≡ accepted s.broker ++ map publishing ms)
      × (length ms + length s'.log ≡ length s.log + length spans)
      × (s'.reporter ≡ s.reporter)

  published-Accounts :
      (span : A) (m : Str) (s : Session C H W) (y : Outcome (Unit {0}) × W)
      → marshal (span ∷ []) ≡ ok m
      → b.publish (publishing m) s.reporter.channel s.broker ≡ y
      → (s' : Session C H W) × (published b error_text marshal y s ≡ ok s')
        × Accounts (span ∷ []) s s'
  published-Accounts span m s (ok _, w) made at = (
    record s { broker = w },
    refl,
    (
      m ∷ [],
      kept span m made nothing,
      keeps (publishing m) s.reporter.channel s.broker w at,
      omega arith,
      refl,
    ),
  )
  published-Accounts span m s (err e, w) made at = (
    _,
    refl,
    (
      [],
      unpublished span m s.broker w e made at nothing,
      drops (publishing m) s.reporter.channel s.broker w e at
          ∙ sym (append-nil (accepted s.broker)),
      omega (arith, length-append s.log (_ ∷ [])),
      refl,
    ),
  )
  published-Accounts span m s (panic p, w) made at =
      absurd (returns_publish (publishing m) s.reporter.channel s.broker p (ap (λ y. y.0) at))

  publish_body-Accounts :
      (span : A) (s : Session C H W) (x : Outcome Str)
      → marshal (span ∷ []) ≡ x
      → (s' : Session C H W) × (publish_body b error_text marshal x s ≡ ok s')
        × Accounts (span ∷ []) s s'
  publish_body-Accounts span s (ok m) at = published-Accounts span m s _ at refl
  publish_body-Accounts span s (err e) at = (
    _,
    refl,
    (
      [],
      unserialized span e at nothing,
      sym (append-nil (accepted s.broker)),
      omega (arith, length-append s.log (_ ∷ [])),
      refl,
    ),
  )
  publish_body-Accounts span s (panic p) at = absurd (returns_marshal (span ∷ []) p at)

  Chosen-append :
      (h : H) {ms ms' : List Str} {xs ys : List A}
      → Chosen b marshal h xs ms
      → Chosen b marshal h ys ms'
      → Chosen b marshal h (xs ++ ys) (ms ++ ms')
  Chosen-append h nothing after = after
  Chosen-append h (kept span m made rest) after = kept span m made (Chosen-append h rest after)
  Chosen-append h (unserialized span e failed rest) after =
      unserialized span e failed (Chosen-append h rest after)
  Chosen-append h (unpublished span m w w' e made failed rest) after =
      unpublished span m w w' e made failed (Chosen-append h rest after)

  map-append :
      (ms ms' : List Str) → map publishing (ms ++ ms') ≡ map publishing ms ++ map publishing ms'
  map-append [] ms' = refl
  map-append (m ∷ ms) ms' = ap (λ x. publishing m ∷ x) (map-append ms ms')

  -- If neither the serialization nor `Publish` of the client panics, where the messages that a client
  -- accepts are those that it publishes without an error, then any calls of `Send` return and keep the
  -- reporter; the messages of their spans are accepted in the order of the calls, each to the default
  -- exchange, but for the spans that cannot be serialized and those whose message `Publish` refuses on the
  -- channel of the reporter; and one line is logged for each span that is not accepted.
  pub send_all-Accounts :
      (spans : List A) (s : Session C H W)
      → (s' : Session C H W) × (send_all (amqp_reporter b error_text marshal) spans s ≡ ok s')
        × Accounts spans s s'
  unfolding send_all amqp_reporter send_rmq
  send_all-Accounts [] s =
      (s, refl, ([], nothing, sym (append-nil (accepted s.broker)), omega arith, refl))
  send_all-Accounts (span ∷ spans) s =
      let (s1, e, (ms, one, at, count, same)) =
        publish_body-Accounts span s (marshal (span ∷ [])) refl in
      let (s2, e', (ms', rest, at', count', same')) = send_all-Accounts spans s1 in
      (
        s2,
        rw e e',
        (
          ms ++ ms',
          Chosen-append s.reporter.channel one
              (subst (λ h. Chosen b marshal h spans ms') (ap (λ x. x.channel) same) rest),
          at'
              ∙ ap (λ x. x ++ map publishing ms') at
              ∙ append_assoc (accepted s.broker) (map publishing ms) (map publishing ms')
              ∙ ap (λ x. accepted s.broker ++ x) (sym (map-append ms ms')),
          omega (arith, count, count', length-append ms ms'),
          same' ∙ same,
        ),
      )
