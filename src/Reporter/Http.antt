-- ===== src/Reporter/Http.antt =====
-- reporter/http/http.go. Two goroutines share the batch under a lock: `loop` takes spans and asks for
-- sends, `sendLoop` sends. Between the two sections of `sendBatch` that hold the lock `loop` may run, so
-- they are two steps here. What is logged is left out. The proofs are in the modules below.
pub mod Steps
pub mod Invariant
pub mod Delivery
pub mod InFlight
pub mod Shutdown
pub mod Requests
pub mod Drains
use zipkin_go.Base.{
  ℕ, zero, suc, ◌+◌, ◌-◌, ◌*◌, Bool, true, false, Option, none, some, List, [], ◌∷◌, ◌++◌, Str,
  codes, ltb, leb, if◌then◌else◌, ℤ, pos, negsuc, ◌+ℤ◌, ◌-ℤ◌, ltb_ℤ, length, drop, Outcome, ok, err,
  panic, out_of_range, ◌>>=◌, Error,
}
use zipkin_go.HttpHeader
use zipkin_go.HttpHeader.{HttpHeader}
use zipkin_go.Model.Spans.{Time, Duration}
use zipkin_go.Reporter.Interface.{SpanSerializer}

-- An `*http.Request` as far as the code sets it.
pub record Request : Type 0 where
  pub method : Str
  pub url : Str
  pub header : HttpHeader
  pub body : Str
  pub timeout : Duration

-- The interface `HTTPDoer`: the status of the response, or an error.
abbrev pub HttpDoer : Type 0 → Type 0
HttpDoer W = Request → W → Outcome ℕ × W

-- What the options set.
pub record Config (A W : Type 0) : Type 0 where
  pub url : Str
  pub client : HttpDoer W
  pub batch_interval : Duration
  pub batch_size : ℤ
  pub max_backlog : ℤ
  pub req_callback : Option (Request → Request)
  pub req_timeout : Duration
  pub serializer : SpanSerializer A

abbrev pub second : Duration
second = pos 1000000000

abbrev pub ReporterOption : Type 0 → Type 0 → Type 0
ReporterOption A W = Config A W → Config A W

module _ {A W : Type 0} where
  unfoldable pub timeout_option : Duration → ReporterOption A W
  timeout_option d c = record c { req_timeout = d }

  unfoldable pub batch_size_option : ℤ → ReporterOption A W
  batch_size_option n c = record c { batch_size = n }

  unfoldable pub max_backlog_option : ℤ → ReporterOption A W
  max_backlog_option n c = record c { max_backlog = n }

  unfoldable pub batch_interval_option : Duration → ReporterOption A W
  batch_interval_option d c = record c { batch_interval = d }

  unfoldable pub client_option : HttpDoer W → ReporterOption A W
  client_option client c = record c { client = client }

  unfoldable pub request_callback_option : Option (Request → Request) → ReporterOption A W
  request_callback_option rc c = record c { req_callback = rc }

  -- A nil serializer leaves the default.
  unfoldable pub serializer_option : Option (SpanSerializer A) → ReporterOption A W
  serializer_option none c = c
  serializer_option (some s) c = record c { serializer = s }

  abbrev pub run_reporter_options : List (ReporterOption A W) → ReporterOption A W
  run_reporter_options [] c = c
  run_reporter_options (o ∷ os) c = run_reporter_options os (o c)

  -- `default_client` is `http.Client` and `json` the JSON encoding of spans.
  unfoldable pub new_config :
      HttpDoer W → SpanSerializer A → Str → List (ReporterOption A W) → Config A W
  new_config default_client json url opts = run_reporter_options opts (record {
    url = url;
    client = default_client;
    batch_interval = second;
    batch_size = pos 100;
    max_backlog = pos 1000;
    req_callback = none;
    req_timeout = pos (5 * 1000000000);
    serializer = json;
  })

-- Where `sendLoop` stands: at the channel, inside `sendBatch` with the spans that it selected, or behind
-- the last `sendBatch`, whose error `Close` returns. The flag says whether the send is the last.
pub data Sender (A : Type 0) : Type 0 where
  waiting : Sender A
  sending : Bool → List A → Sender A
  stopped : Outcome (Unit {0}) → Sender A

-- `pending` says whether `sendC`, which has room for one, holds a request, and `closed` whether `loop`
-- has closed it and returned.
pub record Reporter (A : Type 0) : Type 0 where
  pub batch : List A
  pub next_send : Time
  pub pending : Bool
  pub closed : Bool
  pub sender : Sender A

-- s[n:]
unfoldable pub slice_from {ℓ} : {A : Type ℓ} → ℤ → List A → Outcome (List A)
slice_from (pos n) xs = if leb n (length xs) then ok (drop n xs) else panic out_of_range
slice_from (negsuc n) xs = panic out_of_range

module _ {A : Type 0} where
  -- The method `append`.
  unfoldable pub append_span : ℤ → A → List A → Outcome (List A × ℕ)
  unfolding slice_from
  append_span max_backlog span batch =
      let longer = batch ++ span ∷ [] in
      if ltb_ℤ max_backlog (pos (length longer))
      then (do
        rest ← slice_from (pos (length longer) -ℤ max_backlog) longer
        ok (rest, length rest))
      else ok (longer, length longer)

  -- A request that finds another one in the channel is dropped.
  unfoldable pub enqueue_send : Reporter A → Reporter A
  enqueue_send r = record r { pending = true }

  -- Behind a `sendBatch` the goroutine waits again, or stops.
  unfoldable pub after_send : Bool → Outcome (Unit {0}) → Sender A
  after_send false result = waiting
  after_send true result = stopped result

  -- The first locked section of `sendBatch`, and its return where there is nothing to send.
  unfoldable pub begin_send : Bool → Reporter A → Reporter A
  unfolding after_send
  begin_send last r = record r {
    sender = elim r.batch [ [] ↦ after_send last (ok tt) | a ∷ batch ↦ sending last (a ∷ batch) ];
  }

  -- `for range r.sendC`: it blocks where the channel is empty and open.
  unfoldable pub next_request : Reporter A → Option (Reporter A)
  unfolding begin_send
  next_request r = elim r.sender [
    | waiting ↦
        (if r.pending
          then some (begin_send false (record r { pending = false }))
          else if r.closed
          then some (begin_send true r)
          else none)
    | sending last batch ↦ none
    | stopped result ↦ none
  ]

  -- The end of `sendBatch`: an error keeps the batch, an answer removes as many spans as were sent.
  unfoldable pub end_send : Outcome (Unit {0}) → Reporter A → Outcome (Reporter A)
  unfolding after_send slice_from
  end_send result r = elim r.sender [
    | waiting ↦ ok r
    | stopped _ ↦ ok r
    | sending last sent ↦ elim result [
      | ok _ ↦ (do
        rest ← slice_from (pos (length sent)) r.batch
        ok (record r { batch = rest; sender = after_send last (ok tt) }))
      | err e ↦ ok (record r { sender = after_send last (err e) })
      | panic p ↦ panic p
    ]
  ]

  unfoldable pub quit : Reporter A → Reporter A
  quit r = record r { closed = true }

module _ {A W : Type 0} (c : Config A W) where
  unfoldable pub start_reporter : Time → Reporter A
  start_reporter now = record {
    batch = [];
    next_send = now +ℤ c.batch_interval;
    pending = false;
    closed = false;
    sender = waiting;
  }

  -- The case of `loop` for a span; `now` is the time of the call.
  unfoldable pub receive_span : Time → A → Reporter A → Outcome (Reporter A)
  unfolding append_span enqueue_send
  receive_span now span r = do
    (batch, size) ← append_span c.max_backlog span r.batch
    let r' = record r { batch = batch }
    if ltb_ℤ (pos size) c.batch_size
        then ok r'
        else ok (enqueue_send (record r' { next_send = now +ℤ c.batch_interval }))

  -- The case of `loop` for the ticker.
  unfoldable pub tick : Time → Reporter A → Reporter A
  unfolding enqueue_send
  tick now r =
      if ltb_ℤ r.next_send now
      then enqueue_send (record r { next_send = now +ℤ c.batch_interval })
      else r

  -- `http.NewRequest` may refuse a URL.
  unfoldable pub new_request : (Str → Option Error) → Str → Outcome Request
  new_request check_url body = elim (check_url c.url) [
    | some e ↦ err e
    | none ↦
        (let h = HttpHeader.set [] (codes "b3") (codes "0") in
          let req : Request = record {
            method = codes "POST";
            url = c.url;
            header = HttpHeader.set h (codes "Content-Type") c.serializer.content_type;
            body = body;
            timeout = c.req_timeout;
          } in
          ok (elim c.req_callback [
            | none ↦ req
            | some f ↦ record (f req) { timeout = c.req_timeout }
          ]))
  ]

  -- What `sendBatch` does without the lock. The status of the response is only logged.
  unfoldable pub deliver : (Str → Option Error) → List A → W → Outcome (Unit {0}) × W
  unfolding new_request
  deliver check_url batch w =
      elim (do body ← c.serializer.serialize batch; new_request check_url body) [
        | err e ↦ (err e, w)
        | panic p ↦ (panic p, w)
        | ok req ↦
            (let (answer, w') = c.client req w in
              (elim answer [ ok status ↦ ok tt | err e ↦ err e | panic p ↦ panic p ], w'))
      ]
