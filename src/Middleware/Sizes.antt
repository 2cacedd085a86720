-- ===== src/Middleware/Sizes.antt =====
-- The response size that a traced server records.
use zipkin_go.Base.{
  ℕ, ◌+◌, ◌%◌, ◌^◌, ◌<◌, ◌≡◌, refl, ◌∙◌, arith, true, Option, some, List, [], ◌∷◌, ◌++◌, codes,
  lookup, lt→ltb, pos,
}
use zipkin_go.Strconv.{format_uint}
use zipkin_go.Model.Spans.{Endpoint, Time}
use zipkin_go.Tracer.State.{SpanImpl, recording, Context}
use zipkin_go.Tracer.SpanCalls.{finish_call}
use zipkin_go.Tracer.TagValues.{span_tags, last_tag-append}
use zipkin_go.Middleware.ResponseWriter.{
  ResponseCall, write_header, write_body, read_from, RwInterceptor, intercept,
}
use zipkin_go.Middleware.Requests.{handle_request-exit_tag}
use zipkin_go.Middleware.HttpServer.{
  ServerRequest, ServerHandler, Handled, status_calls, size_calls, exit_calls, handle_request,
}

-- The bytes that the writer took of those that went through `Write`.
abbrev pub taken : List ResponseCall → ℕ
taken [] = 0
taken (write_header i ∷ calls) = taken calls
taken (write_body passed n ∷ calls) = n + taken calls
taken (read_from n ∷ calls) = taken calls

-- The interceptor counts the bytes that are taken through `Write`, as a 64-bit number.
intercept-size :
    (calls : List ResponseCall) (ri : RwInterceptor)
    → ri.size < 2 ^ 64
    → (intercept calls ri).size ≡ (ri.size + taken calls) % 2 ^ 64
unfolding intercept
intercept-size [] ri small = omega arith
intercept-size (write_header i ∷ calls) ri small =
    intercept-size calls (record ri { status_code = i }) small
intercept-size (write_body passed n ∷ calls) ri small =
    let size = (ri.size + n) % 2 ^ 64 in
    omega (arith, intercept-size calls (record ri { size = size }) (omega arith))
intercept-size (read_from n ∷ calls) ri small = intercept-size calls ri small

-- Where the size of responses is tagged and that size is not zero, a recorded span has at the end of
-- the request the number of bytes that the writer took in the handler's calls of `Write`, modulo 2^64,
-- as the last value of the tag; neither bytes that the handler passed and the writer did not take, nor
-- those that go to the writer by `ReadFrom`, are in it.
pub handle_request-size :
    {W : Type 0} (h : ServerHandler) (endpoint : Option Endpoint)
    (next : Context → ServerRequest → Handled) (r : ServerRequest) (s : SpanImpl) (stop : Time)
    (w : W)
    → h.tag_response_size ≡ true
    → 0 < taken (next (some (recording s)) r).responses % 2 ^ 64
    → lookup
        (codes "http.response.size")
        (span_tags (handle_request h endpoint next r (recording s) stop w).span)
      ≡ some (format_uint (taken (next (some (recording s)) r).responses % 2 ^ 64))
unfolding exit_calls size_calls
handle_request-size h endpoint next r s stop w tags some_bytes =
    let calls = (next (some (recording s)) r).responses in
    let start : RwInterceptor = record { size = 0; status_code = pos 200 } in
    let ri = intercept calls start in
    let key = codes "http.response.size" in
    let counted : ri.size ≡ taken calls % 2 ^ 64 =
      omega (arith, intercept-size calls start (omega arith)) in
    let finish = finish_call stop ∷ [] in
    handle_request-exit_tag h endpoint next r s stop w key (format_uint (taken calls % 2 ^ 64)) refl
      (last_tag-append key (status_calls h ri.status_code) (size_calls h ri.size ++ finish)
        ∙ rw
            (
              last_tag-append key (size_calls h ri.size) finish,
              counted,
              size_calls,
              tags,
              lt→ltb 0 (taken calls % 2 ^ 64) some_bytes,
            )
            refl)
