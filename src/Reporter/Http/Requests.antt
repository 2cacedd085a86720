-- ===== src/Reporter/Http/Requests.antt =====
-- The request that a batch is sent with.
use zipkin_go.Base.{
  ℕ, ◌≡◌, refl, arith, Bool, true, false, Option, none, some, List, [], ◌∷◌, Str, codes, Outcome,
  ok, err, ◌>>=◌, Error,
}
use zipkin_go.HttpHeader
use zipkin_go.HttpHeader.{HttpHeader}
use zipkin_go.Model.Spans.{empty_context}
use zipkin_go.B3.Carriers.Kinds.{extract_http}
use zipkin_go.Reporter.Http.{Config, Request, new_request}

collector_header : Str → HttpHeader
collector_header content_type =
    HttpHeader.set (HttpHeader.set [] (codes "b3") (codes "0")) (codes "Content-Type") content_type

extract_http-collector :
    (content_type : Str)
    → extract_http (collector_header content_type)
      ≡ ok (record empty_context { sampled = some false })
unfolding collector_header extract_http HttpHeader.get zipkin_go.Base.lookup HttpHeader.set
    zipkin_go.Base.insert HttpHeader.canonical_key zipkin_go.B3.Single.parse_single_header
    zipkin_go.B3.Single.parse_parts zipkin_go.B3.Single.set_sampling
extract_http-collector content_type = refl

module _ {A W : Type 0} (c : Config A W) (check_url : Str → Option Error) where
  -- Without a callback, and with a URL that is accepted, the request to the collector carries,
  -- whatever the content type of the serializer, the one B3 header by which an extractor takes it
  -- for not sampled.
  pub extract_http-new_request :
      (body : Str)
      → c.req_callback ≡ none
      → check_url c.url ≡ none
      → (req : Request) × (new_request c check_url body ≡ ok req)
        × (extract_http req.header ≡ ok (record empty_context { sampled = some false }))
        × (req.body ≡ body)
  unfolding new_request collector_header
  extract_http-new_request body plain valid = (
    record {
      method = codes "POST";
      url = c.url;
      header = collector_header c.serializer.content_type;
      body = body;
      timeout = c.req_timeout;
    },
    rw (new_request, valid, plain) refl,
    extract_http-collector c.serializer.content_type,
    refl,
  )
