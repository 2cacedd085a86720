-- ===== src/Reporter/Amqp/Options.antt =====
-- What the options `Exchange` and `Queue` of the AMQP reporter do.
use zipkin_go.Base.{
  ◌≡◌, refl, ap, ◌∙◌, List, [], ◌∷◌, ◌++◌, Str, Outcome, ok, err, panic, ◌>>=◌, Error,
}
use zipkin_go.Reporter.Interface.{send_all}
use zipkin_go.Reporter.Amqp.{
  Broker, Settings, RmqReporter, AmqpOption, exchange_option, queue_option, run_amqp_options,
  and_then, or_make, run_checks, queue_verify, exchange_verify, queue_bind_verify, connect,
  new_reporter, close_rmq, Session, published, publish_body, send_rmq, amqp_reporter,
}

module _ {C H W A : Type 0} (b : Broker C H W) (error_text : Error → Str)
    (marshal : List A → Outcome Str) where
  -- What `Close` returned, what was logged, and the broker.
  abbrev Ended : Type 0
  Ended = Outcome ((Outcome (Unit {0}) × List Error) × W)

  abbrev ended : Outcome (Session C H W) → Ended
  ended x = x >>= λ s. let (e, w) = close_rmq b s.reporter s.broker in ok ((e, s.log), w)

  abbrev used : Outcome (RmqReporter C H) × W → List A → Ended
  used (ok r, w) spans = ended (
      send_all (amqp_reporter b error_text marshal) spans
        (record { reporter = r; broker = w; log = [] }))
  used (err e, w) spans = ok ((err e, []), w)
  used (panic p, w) spans = panic p

  -- The life of a reporter: `NewReporter`, the calls of `Send` for some spans, and `Close`.
  unfoldable pub life : Str → List (AmqpOption C H) → List A → W → Ended
  life address opts spans w = used (new_reporter b address opts w) spans

  module _ (x q : Str) where
    abbrev renamed : RmqReporter C H → RmqReporter C H
    renamed r = record r { exchange = x; queue = q }

    abbrev renamed_result : Outcome (RmqReporter C H) × W → Outcome (RmqReporter C H) × W
    renamed_result (ok r, w) = (ok (renamed r), w)
    renamed_result (err e, w) = (err e, w)
    renamed_result (panic p, w) = (panic p, w)

    abbrev renamed_session : Session C H W → Session C H W
    renamed_session s = record s { reporter = renamed s.reporter }

    run_amqp_options-append :
        (opts : List (AmqpOption C H)) (c : Settings C H)
        → run_amqp_options (opts ++ exchange_option x ∷ queue_option q ∷ []) c
          ≡ record (run_amqp_options opts c) { exchange = x; queue = q }
    unfolding exchange_option queue_option
    run_amqp_options-append [] c = refl
    run_amqp_options-append (o ∷ os) c = run_amqp_options-append os (o c)

    and_then-renamed :
        {B : Type 0} (y : Outcome B × W) (f g : B → W → Outcome (RmqReporter C H) × W)
        → ((a : B) (w : W) → f a w ≡ renamed_result (g a w))
        → and_then y f ≡ renamed_result (and_then y g)
    and_then-renamed (ok a, w) f g h = h a w
    and_then-renamed (err e, w) f g h = refl
    and_then-renamed (panic p, w) f g h = refl

    connect-renamed :
        (address : Str) (c : Settings C H) (w : W)
        → connect b address (record c { exchange = x; queue = q }) w
          ≡ renamed_result (connect b address c w)
    unfolding connect
    connect-renamed address c w =
        and_then-renamed (or_make c.conn (b.dial address) w) _ _ (λ conn w1.
          and_then-renamed (or_make c.channel (b.open_channel conn) w1) _ _ (λ h w2.
            and_then-renamed
              (run_checks (queue_verify b h ∷ exchange_verify b h ∷ queue_bind_verify b h ∷ []) w2)
              _ _ (λ _ w3. refl)))

    published-renamed :
        (y : Outcome (Unit {0}) × W) (s : Session C H W)
        → published b error_text marshal y (renamed_session s)
          ≡ (published b error_text marshal y s >>= λ s'. ok (renamed_session s'))
    published-renamed (ok _, w) s = refl
    published-renamed (err e, w) s = refl
    published-renamed (panic p, w) s = refl

    publish_body-renamed :
        (m : Outcome Str) (s : Session C H W)
        → publish_body b error_text marshal m (renamed_session s)
          ≡ (publish_body b error_text marshal m s >>= λ s'. ok (renamed_session s'))
    publish_body-renamed (ok m) s = published-renamed _ s
    publish_body-renamed (err e) s = refl
    publish_body-renamed (panic p) s = refl

    abbrev sent : List A → Session C H W → Ended
    sent spans s = ended (send_all (amqp_reporter b error_text marshal) spans s)

    ended-next :
        (spans : List A)
        → ((s : Session C H W) → sent spans (renamed_session s) ≡ sent spans s)
        → (y : Outcome (Session C H W))
        → ended (
            (y >>= λ s'. ok (renamed_session s'))
            >>= send_all (amqp_reporter b error_text marshal) spans)
          ≡ ended (y >>= send_all (amqp_reporter b error_text marshal) spans)
    ended-next spans h (ok s) = h s
    ended-next spans h (err e) = refl
    ended-next spans h (panic p) = refl

    sent-renamed :
        (spans : List A) (s : Session C H W) → sent spans (renamed_session s) ≡ sent spans s
    unfolding send_all amqp_reporter send_rmq close_rmq
    sent-renamed [] s = refl
    sent-renamed (span ∷ spans) s =
        ap (λ y. ended (y >>= send_all (amqp_reporter b error_text marshal) spans))
          (publish_body-renamed (marshal (span ∷ [])) s)
        ∙ ended-next spans (sent-renamed spans) (send_rmq b error_text marshal span s)

    used-renamed :
        (y : Outcome (RmqReporter C H) × W) (spans : List A)
        → used (renamed_result y) spans ≡ used y spans
    used-renamed (ok r, w) spans =
        sent-renamed spans (record { reporter = r; broker = w; log = [] })
    used-renamed (err e, w) spans = refl
    used-renamed (panic p, w) spans = refl

    -- The last options `Exchange` and `Queue` change nothing of what a reporter does to the broker, returns
    -- and logs from `NewReporter` to `Close`, whatever the broker and the serialization do.
    pub life-exchange_option :
        (address : Str) (opts : List (AmqpOption C H)) (spans : List A) (w : W)
        → life address (opts ++ exchange_option x ∷ queue_option q ∷ []) spans w
          ≡ life address opts spans w
    unfolding life new_reporter
    life-exchange_option address opts spans w =
        ap (λ c. used (connect b address c w) spans) (run_amqp_options-append opts _)
        ∙ ap (λ y. used y spans) (connect-renamed address (run_amqp_options opts _) w)
        ∙ used-renamed _ spans
